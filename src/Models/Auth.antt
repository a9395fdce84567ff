-- ===== src/Models/Auth.antt =====
-- constants.py, and the tables of tenants, teams, users, memberships and API keys. A primary key is a
-- number.
use sleeper_service.Base.{ℕ, String, Bool, Option}
use sleeper_service.Base.Table.{Keyed}
use sleeper_service.Models.Json.{Fields}
use sleeper_service.Models.Time.{DateTime}

pub data Role : Type 0 where
  owner editor viewer : Role

abbrev pub role_rank : Role → ℕ
role_rank Role.viewer = 0
role_rank Role.editor = 1
role_rank Role.owner = 2

abbrev pub is_owner : Role → Bool
is_owner Role.owner = Bool.true
is_owner _ = Bool.false

pub data KeyKind : Type 0 where
  user invoke : KeyKind

pub data KeyScope : Type 0 where
  tenant team agent : KeyScope

pub record Tenant : Type 0 where
  pub id : ℕ
  pub name : String
  pub settings : Fields

pub record Team : Type 0 where
  pub id : ℕ
  pub tenant_id : ℕ
  pub name : String
  pub is_org_team : Bool

pub record User : Type 0 where
  pub id : ℕ
  pub email : String
  pub is_superuser : Bool

pub record TeamMember : Type 0 where
  pub user_id : ℕ
  pub team_id : ℕ
  pub role : Role

-- The CHECK constraint `kind_shape` makes a key one of the two kinds, with the columns of that kind.
pub data KeyShape : Type 0 where
  user_key : ℕ → KeyShape
  invoke_key : KeyScope → ℕ → KeyShape

pub record ApiKey : Type 0 where
  pub id : ℕ
  pub shape : KeyShape
  pub key_hash : ℕ
  pub rate_limit : Option ℕ
  pub revoked_at : Option DateTime

instance abbrev pub tenant_keyed : Keyed Tenant
tenant_keyed = record { key = λ t. t.id }

instance abbrev pub team_keyed : Keyed Team
team_keyed = record { key = λ t. t.id }

instance abbrev pub user_keyed : Keyed User
user_keyed = record { key = λ u. u.id }
