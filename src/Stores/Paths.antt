-- ===== src/Stores/Paths.antt =====
-- The functions of Python's `posixpath` and `str` that runtime/toolsets.py calls.
use mathlib.Core.List.{reverse}
use sleeper_service.Base.{ℕ, Bool, true, false, List, [], ◌∷◌, ◌++◌, ◌&&◌, ◌||◌, not}
use sleeper_service.Base.Tests.{◌==◌, if◌then◌else◌}
use sleeper_service.Base.Text.{Text, text_eq, starts_with, split, join}

abbrev pub slash : ℕ
slash = b'/'

abbrev pub dot : Text
dot = b'.' ∷ []

abbrev pub parent_dir : Text
parent_dir = b'.' ∷ b'.' ∷ []

abbrev pub parent_slash : Text
parent_slash = b'.' ∷ b'.' ∷ b'/' ∷ []

unfoldable pub lstrip : ℕ → Text → Text
lstrip c [] = []
lstrip c (x ∷ xs) = let rest = lstrip c xs in if x == c then rest else x ∷ xs

-- One more character in front of a stripped text.
abbrev pub keep_unless_last : ℕ → ℕ → Text → Text
keep_unless_last c x [] = if x == c then [] else x ∷ []
keep_unless_last c x (y ∷ ys) = x ∷ y ∷ ys

unfoldable pub rstrip : ℕ → Text → Text
rstrip c [] = []
rstrip c (x ∷ xs) = keep_unless_last c x (rstrip c xs)

unfoldable pub strip : ℕ → Text → Text
unfolding lstrip rstrip
strip c s = rstrip c (lstrip c s)

abbrev pub ends_slash : Text → Bool
ends_slash [] = true
ends_slash (x ∷ []) = x == slash
ends_slash (x ∷ y ∷ ys) = ends_slash (y ∷ ys)

-- `posixpath.join(a, b)`; an empty `a` is joined without a slash, as one that ends in a slash is.
unfoldable pub posix_join : Text → Text → Text
posix_join a b =
    if starts_with (slash ∷ []) b then b else if ends_slash a then a ++ b else a ++ slash ∷ b

abbrev pub is_parent : Text → Bool
is_parent = text_eq parent_dir

-- An empty component or `.` says nothing.
abbrev pub is_void : Text → Bool
is_void w = text_eq [] w || text_eq dot w

-- The components kept so far, the last one first.
abbrev pub top_is_parent : List Text → Bool
top_is_parent [] = false
top_is_parent (w ∷ ws) = is_parent w

abbrev pub is_bottom : List Text → Bool
is_bottom [] = true
is_bottom (w ∷ ws) = false

abbrev pub pop : List Text → List Text
pop [] = []
pop (w ∷ ws) = ws

unfoldable pub norm_step : Bool → List Text → Text → List Text
norm_step absolute kept w =
    if is_void w
    then kept
    else if not (is_parent w) || ((not absolute && is_bottom kept) || top_is_parent kept)
    then w ∷ kept
    else pop kept

unfoldable pub norm_loop : Bool → List Text → List Text → List Text
norm_loop absolute kept [] = kept
norm_loop absolute kept (w ∷ ws) = norm_loop absolute (norm_step absolute kept w) ws

-- One or two initial slashes stay, three or more are one.
abbrev pub initial_slashes : Text → Text
initial_slashes s =
    if starts_with (slash ∷ []) s
    then (if starts_with (slash ∷ slash ∷ []) s && not (starts_with (slash ∷ slash ∷ slash ∷ []) s)
        then slash ∷ slash ∷ []
        else slash ∷ [])
    else []

abbrev pub or_dot : Text → Text
or_dot [] = dot
or_dot (x ∷ xs) = x ∷ xs

-- `posixpath.normpath(path)`
unfoldable pub normpath : Text → Text
unfolding norm_loop norm_step
normpath path =
    let absolute = starts_with (slash ∷ []) path in
    or_dot (initial_slashes path ++ join slash (reverse (norm_loop absolute [] (split slash path))))
