-- ===== src/Exec.antt =====
-- Methods that change a store and may raise. What was committed before a raise stays, so the
-- state comes back beside the error too.
use teldrive_lab.Prelude.{
  ◌≡◌, refl, ◌⊎◌, inl, inr, Bool, String, Option, none, some, if◌then◌else◌, arith,
}

-- The exceptions that the modelled code raises or lets through, with their texts.
pub data Error : Type 0 where
  value_error key_error permission_error runtime_error os_error overflow_error : String → Error
  integrity_error : Error

pub data Result (A : Type 0) : Type 0 where
  ok : A → Result A
  err : Error → Result A

abbrev pub Action : Type 0 → Type 0 → Type 0
Action S A = S → Result A × S

abbrev pub pure : {S A : Type 0} → A → Action S A
pure a s = (ok a, s)

abbrev pub raise : {S A : Type 0} → Error → Action S A
raise e s = (err e, s)

abbrev pub raise_if : {S : Type 0} → Bool → Error → Action S (Unit {0})
raise_if c e s = (if c then err e else ok tt, s)

abbrev pub gets : {S A : Type 0} → (S → A) → Action S A
gets f s = (ok (f s), s)

abbrev pub or_raise : {S A : Type 0} → Option A → Error → Action S A
or_raise none e s = (err e, s)
or_raise (some a) e s = (ok a, s)

infixl 5 ◌>>=◌ ◌>>◌
abbrev pub ◌>>=◌ : {S A B : Type 0} → Action S A → (A → Action S B) → Action S B
◌>>=◌ m f s = let (r, s') = m s in elim r [ ok a ↦ f a s' | err e ↦ (err e, s') ]

abbrev pub ◌>>◌ : {S A B : Type 0} → Action S A → Action S B → Action S B
m >> k = m >>= λ _. k

pub Any-cases : {A : Type 0} (r : Result A) → ((a : A) × (r ≡ ok a)) ⊎ ((e : Error) × (r ≡ err e))
Any-cases (ok a) = inl (a, refl)
Any-cases (err e) = inr (e, refl)

pub Result-cases : (r : Result (Unit {0})) → (r ≡ ok tt) ⊎ ((e : Error) × (r ≡ err e))
Result-cases (ok u) = inl refl
Result-cases (err e) = inr (e, refl)

-- Two actions in a row return only when the first does.
pub seq_lem :
    {S B : Type 0} (m : Action S (Unit {0})) (k : Action S B) (s : S) (x : B)
    → ((m >> k) s).0 ≡ ok x
    → ((m s).0 ≡ ok tt) × (((m >> k) s).1 ≡ (k (m s).1).1) × ((k (m s).1).0 ≡ ok x)
seq_lem m k s x h = elim (Result-cases (m s).0) [
  | inl e ↦ (e, ground (arith, e), ground (arith, e, h))
  | inr (er, e) ↦ absurd (ground (arith, e, h))
]

-- The same for an action whose value the next one takes.
pub bind_lem :
    {S A B : Type 0} (m : Action S A) (k : A → Action S B) (s : S) (x : B)
    → ((m >>= k) s).0 ≡ ok x
    → (a : A) × ((m s).0 ≡ ok a) × (((m >>= k) s).1 ≡ (k a (m s).1).1) × ((k a (m s).1).0 ≡ ok x)
bind_lem m k s x h = elim (Any-cases (m s).0) [
  | inl (a, e) ↦ (a, e, ground (arith, e), ground (arith, e, h))
  | inr (er, e) ↦ absurd (ground (arith, e, h))
]
