-- ===== src/Safety.antt =====
-- teldrive_lab/safety.py: operations, paths, receipts and the policy decision. What a path means on
-- the host (the working directory, symbolic links, the environment) is the parameter `Host`.
pub mod Paths
pub mod Policy
pub mod Laws
pub mod Boundary
use teldrive_lab.Prelude.{ℕ, String, Bool, true, false, List, eqb}

pub data Operation : Type 0 where
  read index verify plan dry_run transfer write delete move rename overwrite reconfigure : Operation

-- `operation in MUTATING`
unfoldable pub is_mutating : Operation → Bool
is_mutating Operation.transfer = true
is_mutating Operation.write = true
is_mutating Operation.delete = true
is_mutating Operation.move = true
is_mutating Operation.rename = true
is_mutating Operation.overwrite = true
is_mutating Operation.reconfigure = true
is_mutating _ = false

-- Equality of operations, by their places in the enumeration.
abbrev place : Operation → ℕ
place Operation.read = 0
place Operation.index = 1
place Operation.verify = 2
place Operation.plan = 3
place Operation.dry_run = 4
place Operation.transfer = 5
place Operation.write = 6
place Operation.delete = 7
place Operation.move = 8
place Operation.rename = 9
place Operation.overwrite = 10
place Operation.reconfigure = 11

abbrev pub same_operation : Operation → Operation → Bool
same_operation a b = eqb (place a) (place b)

pub record Decision : Type 0 where
  pub allowed : Bool
  pub reason : String
  pub requires_authorization : Bool

pub record AuthorizationReceipt : Type 0 where
  pub operation : Operation
  pub paths : List String
  pub approved : Bool
  pub authorization_id : String
