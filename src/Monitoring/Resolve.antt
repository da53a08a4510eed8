-- ===== src/Monitoring/Resolve.antt =====
-- The loop of `collect` over its candidates, and the alerts that it resolves.
use teldrive_lab.Prelude.{
  ℕ, suc, Bool, true, false, not, ◌&&◌, List, [], ◌∷◌, any_by, ◌≡◌, refl, ap, sym, arith, All, inl,
  inr, ◌∙◌, String, ◌==◌,
}
use mathlib.Core.Path.{subst}
use teldrive_lab.Exec.{ok, Result-cases, seq_lem}
use teldrive_lab.Sql.{update_where}
use teldrive_lab.Sql.Laws.{All-tautology, All-map, map-update_where}
use teldrive_lab.Text.{is_one_of}
use teldrive_lab.Monitoring.{Candidate}
use teldrive_lab.Monitoring.Store.{Alert, has_fingerprint, resolve_missing, resolved}
use teldrive_lab.Monitoring.Collect.{
  MonitorState, MonitorSession, report, report_all, fingerprints_of, collect,
}
use teldrive_lab.Monitoring.Active.{
  All-updated, Settled, AreUnique, upserted-Settled, upserted-AreUnique, upserted_keeps,
  upserted_own, report_alerts, any_by-map,
}

unwanted : (on wanted : Bool) → (on && not wanted) ≡ true → wanted ≡ false
unwanted on wanted h = ground (arith, h)

wanted_on :
    (on wanted : Bool) → (on && not wanted) ≡ false → (wanted ≡ true → on ≡ true) → on ≡ wanted
wanted_on on wanted h s = ground (arith, h, s)

any_by-updated :
    {F : Type 0} (k : String) (p : Alert F → Bool) (f : Alert F → Alert F) (alerts : List (Alert F))
    → ((a : Alert F) → (f a).fingerprint ≡ a.fingerprint)
    → any_by (has_fingerprint k) alerts ≡ true
    → any_by (has_fingerprint k) (update_where p f alerts) ≡ true
any_by-updated k p f alerts keeps h =
    sym (any_by-map k (update_where p f alerts))
    ∙ (ap (any_by (λ j. j == k)) (map-update_where (λ a. a.fingerprint) p f alerts keeps)
        ∙ (any_by-map k alerts ∙ h))

module _ {F : Type 0} (session : MonitorSession) (notifies has_audit : Bool) where
  -- What the loop over the candidates leaves.
  abbrev Reported : List String → List (Candidate F) → (before after : List (Alert F)) → Type 0
  Reported wanted candidates before after =
      AreUnique after
      × All (Settled wanted []) after
      × All (λ c. any_by (has_fingerprint c.fingerprint) after ≡ true) candidates
      × ((k : String)
          → any_by (has_fingerprint k) before ≡ true
          → any_by (has_fingerprint k) after ≡ true)

  report_all_lem :
      (wanted : List String) (n : ℕ) (candidates : List (Candidate F)) (s : MonitorState F)
      → (report_all session notifies has_audit n candidates s).0 ≡ ok tt
      → AreUnique s.alerts
      → All (Settled wanted (fingerprints_of candidates)) s.alerts
      → Reported wanted candidates s.alerts
          (report_all session notifies has_audit n candidates s).1.alerts
  unfolding report_all
  report_all_lem wanted n [] s h unique settled = (unique, settled, tt, (λ k there. there))
  report_all_lem wanted n (c ∷ candidates) s h unique settled =
      let first = report session notifies has_audit n c in
      let (done, state, rest) =
        seq_lem first (report_all session notifies has_audit (suc n) candidates) s tt h in
      let table = report_alerts session notifies has_audit n c s done in
      let ih =
        report_all_lem wanted (suc n) candidates (first s).1 rest
          (rw table (upserted-AreUnique (session.alert_id n) session.now c s.alerts unique))
          (rw table (
            upserted-Settled (session.alert_id n) session.now c wanted (fingerprints_of candidates)
              s.alerts unique settled)) in
      let all_done : Reported wanted (c ∷ candidates) s.alerts
          (report_all session notifies has_audit (suc n) candidates (first s).1).1.alerts =
        (
          ih.0,
          ih.1,
          (
            ih.3 c.fingerprint
                (rw table (upserted_own (session.alert_id n) session.now c s.alerts)),
            ih.2,
          ),
          (λ k there.
              ih.3 k
                (rw table (upserted_keeps (session.alert_id n) session.now c k s.alerts there))),
        ) in
      subst (λ after. Reported wanted (c ∷ candidates) s.alerts after)
        (sym (ap (λ t. t.alerts) state)) all_done

  resolve_missing_lem :
      (now : String) (wanted : List String) (alerts : List (Alert F))
      → All (Settled wanted []) alerts
      → All (λ a. a.active ≡ is_one_of a.fingerprint wanted) (resolve_missing wanted now alerts)
  unfolding resolve_missing
  resolve_missing_lem now [] alerts settled =
      All-updated (Settled [] []) _ (λ a. a.active) (resolved now) alerts (λ a on s. refl)
        (λ a off s. off) settled
  resolve_missing_lem now (w ∷ wanted) alerts settled =
      All-updated (Settled (w ∷ wanted) []) _ _ (resolved now) alerts
        (λ a on s. sym (unwanted a.active (is_one_of a.fingerprint (w ∷ wanted)) on))
        (λ a off s. wanted_on a.active (is_one_of a.fingerprint (w ∷ wanted)) off (λ e. s e refl))
        settled

  collect_table :
      (candidates : List (Candidate F)) (s : MonitorState F) (shown : List (Alert F))
      → (collect session notifies has_audit candidates s).0 ≡ ok shown
      → ((report_all session notifies has_audit 0 candidates s).0 ≡ ok tt)
        × ((collect session notifies has_audit candidates s).1.alerts
            ≡ resolve_missing
                (fingerprints_of candidates)
                session.now
                (report_all session notifies has_audit 0 candidates s).1.alerts)
  unfolding collect
  collect_table candidates s shown h =
      elim (Result-cases (report_all session notifies has_audit 0 candidates s).0) [
        | inl e ↦ (e, ground (arith, e))
        | inr (er, e) ↦ absurd (ground (arith, e, h))
      ]

  resolve_missing_keeps :
      (now k : String) (wanted : List String) (alerts : List (Alert F))
      → any_by (has_fingerprint k) alerts ≡ true
      → any_by (has_fingerprint k) (resolve_missing wanted now alerts) ≡ true
  unfolding resolve_missing
  resolve_missing_keeps now k [] alerts h =
      any_by-updated k (λ a. a.active) (resolved now) alerts (λ a. refl) h
  resolve_missing_keeps now k (w ∷ wanted) alerts h =
      any_by-updated k _ (resolved now) alerts (λ a. refl) h

  wanted_at_first : (wanted : List String) (a : Alert F) → Settled wanted wanted a
  wanted_at_first wanted a there gone = absurd (cc (there, gone))

  -- When `collect` returns and the table had no fingerprint twice, an alert of the table is active exactly when a
  -- candidate has its fingerprint, and every candidate has an alert in the table.
  pub collect_active :
      (candidates : List (Candidate F)) (s : MonitorState F) (shown : List (Alert F))
      → AreUnique s.alerts
      → (collect session notifies has_audit candidates s).0 ≡ ok shown
      → let after = (collect session notifies has_audit candidates s).1.alerts in
        All (λ a. a.active ≡ is_one_of a.fingerprint (fingerprints_of candidates)) after
        × All (λ c. any_by (has_fingerprint c.fingerprint) after ≡ true) candidates
  collect_active candidates s shown unique h =
      let wanted = fingerprints_of candidates in
      let (done, table) = collect_table candidates s shown h in
      let (u, settled, present, kept) =
        report_all_lem wanted 0 candidates s done unique
          (All-tautology (Settled wanted wanted) s.alerts (wanted_at_first wanted)) in
      let final =
        resolve_missing wanted session.now
          (report_all session notifies has_audit 0 candidates s).1.alerts in
      let both : All (λ a. a.active ≡ is_one_of a.fingerprint wanted) final
          × All (λ c. any_by (has_fingerprint c.fingerprint) final ≡ true) candidates =
        (
          resolve_missing_lem session.now wanted _ settled,
          All-map _ _ candidates
              (λ c there. resolve_missing_keeps session.now c.fingerprint wanted _ there) present,
        ) in
      subst
        (λ after.
          All (λ a. a.active ≡ is_one_of a.fingerprint wanted) after
          × All (λ c. any_by (has_fingerprint c.fingerprint) after ≡ true) candidates)
        (sym table) both
