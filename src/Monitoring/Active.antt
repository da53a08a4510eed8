-- ===== src/Monitoring/Active.antt =====
-- After a `collect` the active alerts are those that the candidates ask for.
use teldrive_lab.Prelude.{
  ℕ, String, Bool, true, false, Option, none, some, List, [], ◌∷◌, ◌++◌, map, ◌==◌, any_by, ◌≡◌,
  refl, ap, arith, All, inl, inr, Bool-cases, Option-cases, eq_iff, eq_refl, ◌∙◌, is_some,
}
use teldrive_lab.Exec.{ok, Any-cases, seq_lem}
use teldrive_lab.Sql.{update_where, select_one, AreDistinct}
use teldrive_lab.Sql.Laws.{All-append, All-map, All-zip, map-update_where}
use teldrive_lab.Sql.Keys.{selected_is_only, AreDistinct-append, any_by-snoc}
use teldrive_lab.Sql.Upsert.{any_by-select_one}
use teldrive_lab.Text.{is_one_of}
use teldrive_lab.Monitoring.{Candidate}
use teldrive_lab.Monitoring.Store.{
  Alert, has_fingerprint, has_id, new_alert, seen_again, upsert_alert, upsert_found, get,
  insert_alert,
}
use teldrive_lab.Monitoring.Collect.{MonitorState, MonitorSession, report}

pub All-updated :
    {R : Type 0} (P Q : R → Type 0) (p : R → Bool) (f : R → R) (rows : List R)
    → ((r : R) → p r ≡ true → P r → Q (f r))
    → ((r : R) → p r ≡ false → P r → Q r)
    → All P rows
    → All Q (update_where p f rows)
unfolding update_where
All-updated P Q p f [] hit miss h = tt
All-updated P Q p f (r ∷ rows) hit miss (a, h) = elim (Bool-cases (p r)) [
  | inl e ↦ rw e (hit r e a, All-updated P Q p f rows hit miss h)
  | inr e ↦ rw e (miss r e a, All-updated P Q p f rows hit miss h)
]

unselected :
    {R : Type 0} (p : R → Bool) (rows : List R)
    → select_one p rows ≡ none
    → All (λ r. p r ≡ false) rows
unfolding select_one
unselected p [] h = tt
unselected p (r ∷ rows) h = elim (Bool-cases (p r)) [
  | inl e ↦ absurd (ground arith)
  | inr e ↦ (e, unselected p rows (ground arith))
]

module _ {F : Type 0} where
  abbrev table_after :
      (fresh now : String) → Candidate F → List (Alert F) → Option (Alert F) → List (Alert F)
  table_after fresh now c alerts none = alerts ++ new_alert fresh c now ∷ []
  table_after fresh now c alerts (some a) =
      update_where (has_id a.alert_id) (seen_again c now) alerts

  abbrev pub upserted : (fresh now : String) → Candidate F → List (Alert F) → List (Alert F)
  upserted fresh now c alerts =
      table_after fresh now c alerts (select_one (has_fingerprint c.fingerprint) alerts)

  get_keeps : (k : String) (alerts : List (Alert F)) → (get k alerts).1 ≡ alerts
  unfolding get
  get_keeps k alerts = elim (Option-cases (select_one (has_id k) alerts)) [
    | inl missing ↦ rw missing refl
    | inr (a, found) ↦ rw found refl
  ]

  insert_ok :
      (a : Alert F) (alerts : List (Alert F))
      → (insert_alert a alerts).0 ≡ ok tt
      → (insert_alert a alerts).1 ≡ alerts ++ a ∷ []
  insert_ok a alerts h = ground (arith, h)

  found_lem :
      (fresh now : String) (c : Candidate F) (alerts : List (Alert F)) (o : Option (Alert F))
      (x : Alert F)
      → (upsert_found fresh now c o alerts).0 ≡ ok x
      → (upsert_found fresh now c o alerts).1 ≡ table_after fresh now c alerts o
  found_lem fresh now c alerts (some a) x h = get_keeps a.alert_id _
  found_lem fresh now c alerts none x h =
      let (done, state, _) =
        seq_lem (insert_alert (new_alert fresh c now)) (get fresh) alerts x h in
      state
      ∙ (get_keeps fresh (insert_alert (new_alert fresh c now) alerts).1
          ∙ insert_ok (new_alert fresh c now) alerts done)

  upsert_alert_lem :
      (fresh now : String) (c : Candidate F) (alerts : List (Alert F)) (x : Alert F)
      → (upsert_alert fresh now c alerts).0 ≡ ok x
      → (upsert_alert fresh now c alerts).1 ≡ upserted fresh now c alerts
  unfolding upsert_alert
  upsert_alert_lem fresh now c alerts x h =
      found_lem fresh now c alerts (select_one (has_fingerprint c.fingerprint) alerts) x h

  -- A wanted alert is active, or its candidate is still to come.
  abbrev pub Settled : List String → List String → Alert F → Type 0
  Settled wanted todo a =
      is_one_of a.fingerprint wanted ≡ true → is_one_of a.fingerprint todo ≡ false → a.active ≡ true

  Settled-later :
      (wanted todo : List String) (k : String) (a : Alert F)
      → (a.fingerprint == k) ≡ false
      → Settled wanted (k ∷ todo) a
      → Settled wanted todo a
  Settled-later wanted todo k a other h w t =
      h w (ground (arith, t, eq_iff k a.fingerprint, eq_iff a.fingerprint k, other))

  pub upserted-Settled :
      (fresh now : String) (c : Candidate F) (wanted todo : List String) (alerts : List (Alert F))
      → AreDistinct (map (λ a. a.fingerprint) alerts)
      → All (Settled wanted (c.fingerprint ∷ todo)) alerts
      → All (Settled wanted todo) (upserted fresh now c alerts)
  upserted-Settled fresh now c wanted todo alerts distinct h =
      elim (Option-cases (select_one (has_fingerprint c.fingerprint) alerts)) [
        | inl missing ↦ rw missing (
            All-append (Settled wanted todo) alerts _
              (All-map _ _ alerts
                (λ a (other, s). Settled-later wanted todo c.fingerprint a other s)
                (All-zip _ _ alerts (unselected (has_fingerprint c.fingerprint) alerts missing) h))
              ((λ w t. refl), tt))
        | inr (a, found) ↦ rw found (
            All-updated _ _ (has_id a.alert_id) (seen_again c now) alerts (λ b same s w t. refl)
              (λ b other (only, s).
                Settled-later wanted todo c.fingerprint b
                  (elim (Bool-cases (b.fingerprint == c.fingerprint)) [
                    | inl same ↦ absurd (cc (other, only same, eq_refl a.alert_id))
                    | inr apart ↦ apart
                  ])
                  s)
              (All-zip _ _ alerts
                (selected_is_only (λ a. a.fingerprint) (has_fingerprint c.fingerprint) c.fingerprint
                  alerts a (λ b e. (eq_iff b.fingerprint c.fingerprint).0 e) distinct found)
                h))
      ]

  map_append :
      {A : Type 0} (f : Alert F → A) (rows : List (Alert F)) (a : Alert F)
      → map f (rows ++ a ∷ []) ≡ map f rows ++ f a ∷ []
  map_append f [] a = refl
  map_append f (r ∷ rows) a = ap (λ l. f r ∷ l) (map_append f rows a)

  pub any_by-map :
      (k : String) (rows : List (Alert F))
      → any_by (λ j. j == k) (map (λ a. a.fingerprint) rows) ≡ any_by (has_fingerprint k) rows
  any_by-map k [] = refl
  any_by-map k (r ∷ rows) = rw (any_by-map k rows) refl

  -- The fingerprints of the table.
  abbrev pub AreUnique : List (Alert F) → Type 0
  AreUnique alerts = AreDistinct (map (λ a. a.fingerprint) alerts)

  pub upserted-AreUnique :
      (fresh now : String) (c : Candidate F) (alerts : List (Alert F))
      → AreUnique alerts
      → AreUnique (upserted fresh now c alerts)
  upserted-AreUnique fresh now c alerts unique =
      elim (Option-cases (select_one (has_fingerprint c.fingerprint) alerts)) [
        | inl missing ↦ rw missing (
            rw (map_append (λ a. a.fingerprint) alerts (new_alert fresh c now)) (
              AreDistinct-append (map (λ a. a.fingerprint) alerts) c.fingerprint
                (any_by-map c.fingerprint alerts
                  ∙ (any_by-select_one (has_fingerprint c.fingerprint) alerts ∙ ap is_some missing))
                unique))
        | inr (a, found) ↦ rw found (
            rw
              (map-update_where (λ a. a.fingerprint) (has_id a.alert_id) (seen_again c now) alerts
                (λ r. refl))
              unique)
      ]

  -- The fingerprints that are there stay.
  pub upserted_keeps :
      (fresh now : String) (c : Candidate F) (k : String) (alerts : List (Alert F))
      → any_by (has_fingerprint k) alerts ≡ true
      → any_by (has_fingerprint k) (upserted fresh now c alerts) ≡ true
  upserted_keeps fresh now c k alerts h =
      elim (Option-cases (select_one (has_fingerprint c.fingerprint) alerts)) [
        | inl missing ↦
            rw missing
              (rw (any_by-snoc (has_fingerprint k) alerts (new_alert fresh c now)) (rw h refl))
        | inr (a, found) ↦ rw found (
            rw (← (any_by-map k (update_where (has_id a.alert_id) (seen_again c now) alerts))) (
              rw
                (map-update_where (λ a. a.fingerprint) (has_id a.alert_id) (seen_again c now) alerts
                  (λ r. refl))
                (any_by-map k alerts ∙ h)))
      ]

  pub upserted_own :
      (fresh now : String) (c : Candidate F) (alerts : List (Alert F))
      → any_by (has_fingerprint c.fingerprint) (upserted fresh now c alerts) ≡ true
  upserted_own fresh now c alerts =
      elim (Option-cases (select_one (has_fingerprint c.fingerprint) alerts)) [
        | inl missing ↦ rw missing (
            rw (any_by-snoc (has_fingerprint c.fingerprint) alerts (new_alert fresh c now))
              (rw (eq_refl c.fingerprint) (ground arith)))
        | inr (a, found) ↦ rw found (
            rw
              (← (
                any_by-map c.fingerprint
                  (update_where (has_id a.alert_id) (seen_again c now) alerts)))
              (rw
                (map-update_where (λ a. a.fingerprint) (has_id a.alert_id) (seen_again c now) alerts
                  (λ r. refl))
                (any_by-map c.fingerprint alerts
                  ∙ (any_by-select_one (has_fingerprint c.fingerprint) alerts ∙ ap is_some found))))
      ]

  pub report_alerts :
      (session : MonitorSession) (notifies has_audit : Bool) (n : ℕ) (c : Candidate F)
      (s : MonitorState F)
      → (report session notifies has_audit n c s).0 ≡ ok tt
      → (report session notifies has_audit n c s).1.alerts
        ≡ upserted (session.alert_id n) session.now c s.alerts
  unfolding report
  report_alerts session notifies has_audit n c s h =
      elim (Any-cases (upsert_alert (session.alert_id n) session.now c s.alerts).0) [
        | inl (x, done) ↦
            ground
              (arith, done, h, upsert_alert_lem (session.alert_id n) session.now c s.alerts x done)
        | inr (e, raised) ↦ absurd (ground (arith, raised, h))
      ]
