-- ===== src/Safety/Policy.antt =====
-- `authorize` and the receipts.
use teldrive_lab.Prelude.{
  String, Bool, true, false, not, Option, none, some, List, [], ◌∷◌, map, if◌then◌else◌, filter_by,
  ◌==◌, text_le,
}
use teldrive_lab.Exec.{Result, ok, err, value_error}
use teldrive_lab.Sql.{order_by}
use teldrive_lab.Safety.{Operation, is_mutating, same_operation, Decision, AuthorizationReceipt}
use teldrive_lab.Text.{append, join}
use teldrive_lab.Safety.Paths.{Host, resolve, is_protected}

-- `tuple == tuple`
unfoldable pub same_texts : List String → List String → Bool
same_texts [] [] = true
same_texts [] (t ∷ ts) = false
same_texts (s ∷ ss) [] = false
same_texts (s ∷ ss) (t ∷ ts) = if s == t then same_texts ss ts else false

-- `sorted` on texts
unfoldable pub sorted : List String → List String
sorted = order_by text_le

abbrev pub is_empty : List String → Bool
is_empty [] = true
is_empty (p ∷ paths) = false

-- `str` of an absolute path
unfoldable pub path_text : List String → String
path_text parts = append "/" (join "/" parts)

module _ (h : Host) where
  -- `tuple(sorted(str(_resolve(path)) for path in paths))`
  unfoldable pub requested : List String → List String
  requested paths = sorted (map (λ p. path_text (resolve h p)) paths)

  -- `AuthorizationReceipt.for_paths`
  unfoldable pub for_paths : Operation → List String → String → Result AuthorizationReceipt
  for_paths operation paths authorization_id =
      if not (is_mutating operation)
      then err (value_error "authorization receipts are only valid for mutations")
      else ok (record {
        operation = operation;
        paths = requested paths;
        approved = true;
        authorization_id = authorization_id;
      })

  -- The receipt that `for_paths` returns for a mutation.
  unfoldable pub receipt_for : Operation → List String → String → AuthorizationReceipt
  receipt_for operation paths authorization_id = record {
    operation = operation;
    paths = requested paths;
    approved = true;
    authorization_id = authorization_id;
  }

  abbrev pub denied : String → Bool → Decision
  denied reason requires = record {
    allowed = false;
    reason = reason;
    requires_authorization = requires;
  }

  abbrev pub granted : String → Decision
  granted reason = record { allowed = true; reason = reason; requires_authorization = false }

  -- The branch of `authorize` for a mutation with a receipt.
  unfoldable pub check_receipt : Operation → List String → AuthorizationReceipt → Decision
  check_receipt operation paths receipt =
      if not receipt.approved
      then denied "authorization receipt is not approved" true
      else if not (same_operation receipt.operation operation)
      then denied "authorization receipt operation mismatch" true
      else if not (same_texts receipt.paths (requested paths))
      then denied "authorization receipt scope mismatch" true
      else granted (append "authorized by receipt " receipt.authorization_id)

  unfoldable pub protected_paths : List String → List String
  protected_paths paths = filter_by (is_protected h) paths

  -- The end of `authorize`: the operation does not mutate.
  abbrev read_only : List String → Decision
  read_only protected =
      if is_empty protected
      then granted "allowed"
      else granted (append "read-only access to protected production: " (join ", " protected))

  -- The branch of `authorize` for a mutation of no protected path.
  abbrev pub mutation : Operation → List String → Bool → Option AuthorizationReceipt → Decision
  mutation operation paths explicit (some receipt) = check_receipt operation paths receipt
  mutation operation paths explicit none =
      if explicit then granted "allowed" else denied "mutation requires explicit authorization" true

  unfoldable pub authorize :
      Operation
      → List String
      → (explicit_authorization : Bool) → Option AuthorizationReceipt
      → Decision
  authorize operation paths explicit receipt =
      let protected = protected_paths paths in
      if is_mutating operation
      then (if is_empty protected
          then mutation operation paths explicit receipt
          else denied (append "protected production boundary: " (join ", " protected)) false)
      else read_only protected
