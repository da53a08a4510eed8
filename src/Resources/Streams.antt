-- ===== src/Resources/Streams.antt =====
-- `stream_sha256`, `copy_stream` and `bounded_sample`: a file is read chunk by chunk. `hashlib` is an
-- argument: its state, `update` and `hexdigest`.
use teldrive_lab.Prelude.{
  ℕ, zero, suc, ◌+◌, ◌≤◌, String, Option, none, some, [], ◌∷◌, ◌++◌, ◌≡◌, refl, sym, ap, ◌∙◌, arith,
  length, take, positive, ℤ, pos, negsuc,
}
use teldrive_lab.Exec.{Result, ok, err, value_error}
use teldrive_lab.Transfer.{Content}

abbrev drop : ℕ → Content → Content
drop zero bytes = bytes
drop (suc n) [] = []
drop (suc n) (b ∷ bytes) = drop n bytes

-- What `hashlib` is.
pub record Hash (S : Type 0) : Type 0 where
  pub start : S
  pub update : S → Content → S
  pub hexdigest : S → String

-- The state of the loop: the digest, the bytes counted, and the bytes written.
abbrev pub Copied : Type 0 → Type 0
Copied S = S × ℕ × Content

module _ {S : Type 0} (hash : Hash S) where
  abbrev take_chunk : Copied S → Content → Copied S
  take_chunk (digest, size, written) chunk =
      (hash.update digest chunk, size + length chunk, written ++ chunk)

  -- The `while` loop with what is left of the file; `chunk` is what `read` returns.
  unfoldable pub stream : (fuel chunk_size : ℕ) → Copied S → Content → Option (Copied S)
  stream zero chunk_size done rest = none
  stream (suc fuel) chunk_size done rest =
      let chunk = take chunk_size rest in
      let next = stream fuel chunk_size (take_chunk done chunk) (drop chunk_size rest) in
      elim chunk [ [] ↦ some done | b ∷ bytes ↦ next ]

  abbrev enough : Content → ℕ
  enough bytes = suc (length bytes)

  abbrev digest_and_size : Option (Copied S) → Option (Result (String × ℕ))
  digest_and_size none = none
  digest_and_size (some (digest, size, written)) = some (ok (hash.hexdigest digest, size))

  abbrev at_start : Copied S
  at_start = (hash.start, 0, [])

  unfoldable pub stream_sha256 :
      (fuel : ℕ) → (chunk_size : ℤ) → Content → Option (Result (String × ℕ))
  stream_sha256 fuel chunk_size bytes = elim (positive chunk_size) [
    | none ↦ some (err (value_error "chunk_size must be positive"))
    | some n ↦ digest_and_size (stream fuel n at_start bytes)
  ]

  abbrev with_written : Option (Copied S) → Option (Result (String × ℕ) × Content)
  with_written none = none
  with_written (some (digest, size, written)) = some (ok (hash.hexdigest digest, size), written)

  -- The second component is what the destination holds after the copy; a refused call leaves it.
  unfoldable pub copy_stream :
      (fuel : ℕ)
      → (chunk_size : ℤ) → (source destination : Content) → Option (Result (String × ℕ) × Content)
  copy_stream fuel chunk_size source destination = elim (positive chunk_size) [
    | none ↦ some (err (value_error "chunk_size must be positive"), destination)
    | some n ↦ with_written (stream fuel n at_start source)
  ]

unfoldable pub bounded_sample : Content → (max_bytes : ℤ) → Result Content
bounded_sample bytes (pos n) = ok (take n bytes)
bounded_sample bytes (negsuc n) = err (value_error "max_bytes must be non-negative")

take-drop : (n : ℕ) (bytes : Content) → take n bytes ++ drop n bytes ≡ bytes
take-drop zero bytes = refl
take-drop (suc n) [] = refl
take-drop (suc n) (b ∷ bytes) = ap (λ l. b ∷ l) (take-drop n bytes)

length-take-drop :
    (n : ℕ) (bytes : Content) → length (take n bytes) + length (drop n bytes) ≡ length bytes
length-take-drop zero bytes = omega arith
length-take-drop (suc n) [] = omega arith
length-take-drop (suc n) (b ∷ bytes) = omega (arith, length-take-drop n bytes)

some_triple :
    {S : Type 0} {a a' : S} {b b' : ℕ} {c c' : Content}
    → a ≡ a'
    → b ≡ b'
    → c ≡ c'
    → ◌≡◌ {A = Option (Copied S)} (some (a, b, c)) (some (a', b', c'))
some_triple p q r = cc

pub append_assoc : (xs ys zs : Content) → (xs ++ ys) ++ zs ≡ xs ++ (ys ++ zs)
append_assoc [] ys zs = refl
append_assoc (x ∷ xs) ys zs = ap (λ l. x ∷ l) (append_assoc xs ys zs)

pub append_nil : (xs : Content) → xs ++ [] ≡ xs
append_nil [] = refl
append_nil (x ∷ xs) = ap (λ l. x ∷ l) (append_nil xs)

module _ {S : Type 0} (hash : Hash S)
    (update_append : (s : S) (a b : Content)
      → hash.update (hash.update s a) b ≡ hash.update s (a ++ b))
    (update_nil : (s : S) → hash.update s [] ≡ s) where
  stream_lem :
      (fuel n : ℕ) (digest : S) (size : ℕ) (written rest : Content)
      → length rest + 1 ≤ fuel
      → stream hash fuel (suc n) (digest, size, written) rest
        ≡ some (hash.update digest rest, size + length rest, written ++ rest)
  unfolding stream
  stream_lem zero n digest size written rest le = absurd (omega arith)
  stream_lem (suc fuel) n digest size written [] le =
      some_triple (sym (update_nil digest)) (omega arith) (sym (append_nil written))
  stream_lem (suc fuel) n digest size written (b ∷ rest) le =
      stream_lem fuel n _ _ _ (drop n rest) (omega (arith, length-take-drop n rest))
      ∙ some_triple
          (update_append digest (b ∷ take n rest) (drop n rest)
            ∙ ap (λ l. hash.update digest (b ∷ l)) (take-drop n rest))
          (omega (arith, length-take-drop n rest))
          (append_assoc written (b ∷ take n rest) (drop n rest)
            ∙ ap (λ l. written ++ b ∷ l) (take-drop n rest))

  -- With a positive chunk size and a turn for each byte and one more, `copy_stream` ends, whatever the
  -- chunk size: the destination holds the bytes of the source, and it returns their digest and their number.
  pub copy_stream_lem :
      (fuel n : ℕ) (source destination : Content)
      → length source + 1 ≤ fuel
      → copy_stream hash fuel (pos (suc n)) source destination
        ≡ some (ok (hash.hexdigest (hash.update hash.start source), length source), source)
  unfolding copy_stream
  copy_stream_lem fuel n source destination le = rw (stream_lem fuel n hash.start 0 [] source le) (
      ap (λ k. some (ok (hash.hexdigest (hash.update hash.start source), k), source)) (omega arith))

  -- `stream_sha256` returns the digest and the size that `copy_stream` returns for the same file, whatever
  -- the chunk sizes of the two, when both are given a turn for each byte and one more.
  pub stream_sha256-copy_stream :
      (fuel m n : ℕ) (source destination : Content)
      → length source + 1 ≤ fuel
      → (result : Result (String × ℕ)) × (stream_sha256 hash fuel (pos (suc m)) source
          ≡ some result)
        × (copy_stream hash fuel (pos (suc n)) source destination ≡ some (result, source))
  unfolding stream_sha256
  stream_sha256-copy_stream fuel m n source destination le = (
    ok (hash.hexdigest (hash.update hash.start source), length source),
    rw (stream_lem fuel m hash.start 0 [] source le)
        (ap (λ k. some (ok (hash.hexdigest (hash.update hash.start source), k))) (omega arith)),
    copy_stream_lem fuel n source destination le,
  )
