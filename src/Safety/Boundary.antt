-- ===== src/Safety/Boundary.antt =====
-- The protected boundary is closed downwards, and configuration can only widen it.
use teldrive_lab.Prelude.{
  String, Bool, true, List, [], ◌∷◌, ◌++◌, ◌≡◌, refl, arith, if◌then◌else◌, Bool-cases, inl, inr,
  any_by,
}
use teldrive_lab.Safety.Paths.{
  Host, FilePath, resolve, resolve_path, is_within, is_protected, protected_roots, protected_state,
  configured_paths, builtin_protected_roots, builtin_protected_state,
}

is_within-append :
    (root c rest : List String) → is_within root c ≡ true → is_within root (c ++ rest) ≡ true
unfolding is_within
is_within-append [] c rest h = refl
is_within-append (r ∷ root) [] rest h = cc
is_within-append (r ∷ root) (x ∷ c) rest h = ground (arith, is_within-append root c rest)

any_by_mono :
    (p q : FilePath → Bool) (xs : List FilePath)
    → ((x : FilePath) → p x ≡ true → q x ≡ true)
    → any_by p xs ≡ true
    → any_by q xs ≡ true
any_by_mono p q [] h a = cc
any_by_mono p q (x ∷ xs) h a = elim (Bool-cases (p x)) [
  | inl e ↦ rw (h x e) refl
  | inr e ↦ ground (arith, any_by_mono p q xs h (rw e at a))
]

-- Whatever lies below a protected path is protected.
pub below_protected :
    (h : Host) (p q : String) (rest : List String)
    → resolve h q ≡ resolve h p ++ rest
    → is_protected h p ≡ true
    → is_protected h q ≡ true
unfolding is_protected
below_protected h p q rest below protected =
    any_by_mono (λ root. is_within (resolve_path h root) (resolve h p))
      (λ root. is_within (resolve_path h root) (resolve h q))
      (protected_roots h ++ protected_state h)
      (λ root e. rw below (is_within-append (resolve_path h root) (resolve h p) rest e)) protected

any_by-append :
    (p : FilePath → Bool) (xs ys : List FilePath)
    → any_by p (xs ++ ys) ≡ (if any_by p xs then true else any_by p ys)
any_by-append p [] ys = refl
any_by-append p (x ∷ xs) ys = ground (arith, any_by-append p xs ys)

-- A host with neither environment variable set.
abbrev pub unconfigured : Host → Host
unconfigured h = record h { protected_roots_env = ""; protected_state_env = "" }

-- What is protected with neither environment variable set is protected whatever they hold.
pub configuration_only_adds :
    (h : Host) (p : String) → is_protected (unconfigured h) p ≡ true → is_protected h p ≡ true
unfolding is_protected protected_roots protected_state resolve resolve_path configured_paths
configuration_only_adds h p protected =
    let within = λ (root : FilePath). is_within (resolve_path h root) (resolve h p) in
    ground (
      arith,
      any_by-append within (protected_roots h) (protected_state h),
      any_by-append within builtin_protected_roots (configured_paths h h.protected_roots_env),
      any_by-append within builtin_protected_state (configured_paths h h.protected_state_env),
    )
