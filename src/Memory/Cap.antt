-- ===== src/Memory/Cap.antt =====
-- The size cap of a memory document: `_enforce_size_cap` of runtime/memory.py.
use sleeper_service.Base.{
  ℕ, zero, suc, ◌≤◌, ◌<◌, ◌≡◌, refl, Bool, true, false, Option, none, some, List, [], ◌∷◌, ◌&&◌,
  ◌||◌, arith, inl, inr, ◌⊎◌,
}
use sleeper_service.Base.Tests.{leb, ◌==◌, if◌then◌else◌, Bool-cases, leb→le}
use sleeper_service.Base.Lists.{any, count, length, take, length-take}
use sleeper_service.Base.Table.{discard_by}
use sleeper_service.Base.Text.{Text, codes, starts_with, join}

abbrev pub newline : ℕ
newline = 10

-- The characters at which `str.splitlines` ends a line; a carriage return with a newline is one end.
abbrev pub is_line_end : ℕ → Bool
is_line_end c = any (λ e. c == e) (10 ∷ 11 ∷ 12 ∷ 13 ∷ 28 ∷ 29 ∷ 30 ∷ 133 ∷ 8232 ∷ 8233 ∷ [])

abbrev onto_line : ℕ → List Text → List Text
onto_line c [] = (c ∷ []) ∷ []
onto_line c (l ∷ ls) = (c ∷ l) ∷ ls

-- `content.splitlines()`
pub splitlines : Text → List Text
splitlines [] = []
splitlines (c ∷ []) = if is_line_end c then [] ∷ [] else (c ∷ []) ∷ []
splitlines (c ∷ d ∷ cs) =
    let from_next = splitlines (d ∷ cs) in
    let after_next = splitlines cs in
    if c == 13 && d == 10
    then [] ∷ after_next
    else if is_line_end c
    then [] ∷ from_next
    else onto_line c from_next

-- `line.startswith(("- ✔", "- ✘"))`
abbrev pub is_lesson : Text → Bool
is_lesson line = starts_with (codes "- ✔") line || starts_with (codes "- ✘") line

-- The loop, on fuel: none means that it ran out.
pub drop_lessons : ℕ → ℕ → List Text → Option Text
drop_lessons cap zero lines = none
drop_lessons cap (suc fuel) lines =
    let next = drop_lessons cap fuel (discard_by is_lesson lines) in
    if leb (length (join newline lines)) cap
    then some (join newline lines)
    else if any is_lesson lines
    then next
    else some (take cap (join newline lines))

-- Each round takes one lesson away, so one more round than there are lessons is enough.
unfoldable pub enforce_size_cap : ℕ → Text → Option Text
enforce_size_cap cap content =
    if leb (length content) cap
    then some content
    else (let lines = splitlines content in drop_lessons cap (suc (count is_lesson lines)) lines)

-- The lines without the first lessons, so many of them.
abbrev pub without_first : ℕ → List Text → List Text
without_first zero lines = lines
without_first (suc k) lines = without_first k (discard_by is_lesson lines)

-- What the loop gives: the lines without as many of the first lessons as the cap makes necessary, and where the
-- lines without any lesson are still too long, the beginning of those.
abbrev pub Trimmed : ℕ → List Text → Text → Type 0
Trimmed cap lines t =
    (k : ℕ) × ((j : ℕ) → j < k → cap < length (join newline (without_first j lines)))
    × (((t ≡ join newline (without_first k lines)) × (length t ≤ cap))
        ⊎ ((any is_lesson (without_first k lines) ≡ false)
            × (cap < length (join newline (without_first k lines)))
            × (t ≡ take cap (join newline (without_first k lines)))))

count-discard_lesson {ℓ} :
    {A : Type ℓ} (p : A → Bool) (xs : List A)
    → any p xs ≡ true
    → suc (count p (discard_by p xs)) ≡ count p xs
count-discard_lesson p [] h = absurd (cc)
count-discard_lesson p (x ∷ xs) h = ground (arith, count-discard_lesson p xs)

not_leb : (a b : ℕ) → leb a b ≡ false → b < a
not_leb a b h = ground arith

shorter :
    (cap : ℕ) (lines : List Text) (k : ℕ)
    → leb (length (join newline lines)) cap ≡ false
    → ((j : ℕ) → j < k → cap < length (join newline (without_first j (discard_by is_lesson lines))))
    → (j : ℕ) → j < suc k
    → cap < length (join newline (without_first j lines))
shorter cap lines k long short zero lt = not_leb _ _ long
shorter cap lines k long short (suc j) lt = short j (omega arith)

Trimmed-le : (cap : ℕ) (lines : List Text) (t : Text) → Trimmed cap lines t → length t ≤ cap
Trimmed-le cap lines t (k, short, inl (e, le)) = le
Trimmed-le cap lines t (k, short, inr (over, long, e)) = rw e (length-take cap _)

drop_lessons-Trimmed :
    (cap fuel : ℕ) (lines : List Text)
    → count is_lesson lines < fuel
    → (t : Text) × (drop_lessons cap fuel lines ≡ some t) × Trimmed cap lines t
unfolding drop_lessons
drop_lessons-Trimmed cap zero lines h = absurd (omega arith)
drop_lessons-Trimmed cap (suc fuel) lines h =
    elim (Bool-cases (leb (length (join newline lines)) cap)) [
      | inl fits ↦ (
        join newline lines,
        rw fits refl,
        (0, λ j lt. absurd (omega arith), inl (refl, leb→le _ _ fits)),
      )
      | inr long ↦ elim (Bool-cases (any is_lesson lines)) [
        | inr none_left ↦ (
          take cap (join newline lines),
          rw (long, none_left) refl,
          (0, λ j lt. absurd (omega arith), inr (none_left, not_leb _ _ long, refl)),
        )
        | inl some_left ↦
            let (t, e, (k, short, last)) =
              drop_lessons-Trimmed cap fuel (discard_by is_lesson lines)
                (omega (arith, count-discard_lesson is_lesson lines some_left)) in
            (t, rw (long, some_left) e, (suc k, shorter cap lines k long short, last))
      ]
    ]

-- A document within the cap stays as it is. Of a longer one the loop, which always ends, takes away the oldest
-- lessons, no more of them than necessary and no other line; only where the lines without any lesson are still too
-- long is the text cut off. So the result is never longer than the cap.
pub enforce_size_cap_total :
    (cap : ℕ) (content : Text)
    → (t : Text) × (enforce_size_cap cap content ≡ some t)
      × (length t ≤ cap)
      × (((length content ≤ cap) × (t ≡ content))
          ⊎ ((cap < length content) × Trimmed cap (splitlines content) t))
unfolding enforce_size_cap
enforce_size_cap_total cap content = elim (Bool-cases (leb (length content) cap)) [
  | inl fits ↦ (content, rw fits refl, leb→le _ _ fits, inl (leb→le _ _ fits, refl))
  | inr long ↦
      let lines = splitlines content in
      let (t, e, trimmed) =
        drop_lessons-Trimmed cap (suc (count is_lesson lines)) lines (omega arith) in
      (t, rw long e, Trimmed-le cap lines t trimmed, inr (not_leb _ _ long, trimmed))
]

-- `str.isspace` of one character.
abbrev pub is_space : ℕ → Bool
is_space c =
    (leb 9 c && leb c 13)
    || ((leb 28 c && leb c 32)
        || ((leb 8192 c && leb c 8202)
            || any (λ e. c == e) (133 ∷ 160 ∷ 5760 ∷ 8232 ∷ 8233 ∷ 8239 ∷ 8287 ∷ 12288 ∷ [])))

-- `s.lstrip()`
abbrev pub lstrip_space : Text → Text
lstrip_space [] = []
lstrip_space (c ∷ cs) = let rest = lstrip_space cs in if is_space c then rest else c ∷ cs

abbrev keep_unless_trailing : ℕ → Text → Text
keep_unless_trailing c [] = if is_space c then [] else c ∷ []
keep_unless_trailing c (d ∷ ds) = c ∷ d ∷ ds

-- `s.rstrip()`
abbrev pub rstrip_space : Text → Text
rstrip_space [] = []
rstrip_space (c ∷ cs) = keep_unless_trailing c (rstrip_space cs)

-- `s.strip()`
abbrev pub strip_space : Text → Text
strip_space s = rstrip_space (lstrip_space s)
