-- ===== src/Runtime/Laws.antt =====
-- The Lab's state never lies in production.
use teldrive_lab.Prelude.{false, ◌≡◌, arith}
use teldrive_lab.Exec.{ok}
use teldrive_lab.Safety.Paths.{Host, is_protected}
use teldrive_lab.Safety.Policy.{path_text}
use teldrive_lab.Runtime.{RuntimePaths, ensure_runtime}

-- When `ensure_runtime` accepts a layout, it returns it as it was, and none of its five directories
-- is protected.
pub ensure_runtime_lem :
    (h : Host) (p q : RuntimePaths)
    → ensure_runtime h p ≡ ok q
    → (q ≡ p)
      × (is_protected h (path_text p.root) ≡ false)
      × (is_protected h (path_text p.state) ≡ false)
      × (is_protected h (path_text p.cache) ≡ false)
      × (is_protected h (path_text p.logs) ≡ false)
      × (is_protected h (path_text p.backups) ≡ false)
unfolding ensure_runtime
ensure_runtime_lem h p q e =
    (ground arith, ground arith, ground arith, ground arith, ground arith, ground arith)
