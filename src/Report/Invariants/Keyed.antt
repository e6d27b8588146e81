-- ===== src/Report/Invariants/Keyed.antt =====
-- The unique keys of the report tables, and what Create and Confirm do to them.
use flood_now_backend.Base.{
  ℕ, ◌≤◌, ◌≡◌, Bool, true, false, Option, none, some, List, [], ◌∷◌, any, select, count_by, ◌==◌,
  if◌then◌else◌, arith, Bool-cases, inl, inr,
}
use flood_now_backend.Base.Int.{ℤ}
use flood_now_backend.Base.Text.{Text, text_eq, text_eq_sound}
use flood_now_backend.Program.{store_after}
use flood_now_backend.Postgres.Table.{update_where}
use flood_now_backend.Postgres.Rows.{count_by-update_le, count_by-none}
use flood_now_backend.Sos.Request.{is_text}
use flood_now_backend.Sos.Tables.{same_client_id}
use flood_now_backend.Report.Lifecycle.{Report, Freshness, HiddenReason}
use flood_now_backend.Report.Input.{ConditionUpdate}
use flood_now_backend.Report.Tables.{
  Vote, Tables, report_is, row_of, of_client, clashes, inserted, create, of_user,
}
use flood_now_backend.Report.Confirm.{
  ConfirmParams, of_device, voted_again, first_vote, upsert_vote, apply_condition_update, renewed,
  updated_rows, refreshed_rows, resolved_to, settle, confirm, confirm_locked,
}
use flood_now_backend.Report.Moderation.{hide_row, show_row, set_hidden, complaint_of}

pub record Keys (s : Tables) : Type 0 where
  pub one_row : (id : ℕ) → count_by (report_is id) s.reports ≤ 1
  pub one_client_id : (c : Text) → count_by (of_client c) s.reports ≤ 1
  pub one_vote : (id : ℕ) (d : Text) → count_by (of_device id d) s.votes ≤ 1
  pub one_complaint : (id : ℕ) (d : Text) → count_by (complaint_of id d) s.complaints ≤ 1
  pub one_reaction : (id user : ℕ) → count_by (of_user id user) s.reactions ≤ 1

-- A row in front of a table where no row has its key.
module _ {ℓ} {R : Type ℓ} (q p : R → Bool) (x : R) (t : List R)
    (same : q x ≡ true → (r : R) → q r ≡ true → p r ≡ true) (one : count_by q t ≤ 1) where
  pub inserted_le : any p t ≡ false → count_by q (x ∷ t) ≤ 1
  inserted_le free = elim (Bool-cases (q x)) [
    | inl e ↦ rw (e, count_by-none q p t (same e) free) (omega arith)
    | inr e ↦ rw e (omega (arith, one))
  ]

  -- INSERT … ON CONFLICT DO UPDATE.
  upserted_le :
      (f : R → R)
      → ((r : R) → q (f r) ≡ true → q r ≡ true)
      → count_by q (if any p t then update_where p f t else x ∷ t) ≤ 1
  upserted_le f keeps = elim (Bool-cases (any p t)) [
    | inl e ↦ rw e (omega (arith, one, count_by-update_le q p f t (λ r h. keeps r)))
    | inr e ↦ rw e (inserted_le e)
  ]

pub count_by-select {ℓ} :
    {R : Type ℓ} (q p : R → Bool) (t : List R) → count_by q (select p t) ≤ count_by q t
count_by-select q p [] = omega arith
count_by-select q p (x ∷ xs) = ground (arith, count_by-select q p xs)

-- Two texts that are the same as a third.
pub same_text : (a b d : Text) → text_eq a d ≡ true → text_eq b d ≡ true → text_eq b a ≡ true
same_text a b d h k = rw (text_eq_sound a d h) k

-- A test of a report's keys, which no UPDATE changes.
module _ (k : ℕ → Option Text → Bool) where
  abbrev by_key : Report → Bool
  by_key r = k r.id r.client_id

  updated_rows_le :
      (id : ℕ) (u : Option ConditionUpdate) (rs : List Report)
      → count_by by_key (updated_rows id u rs) ≤ count_by by_key rs
  unfolding apply_condition_update
  updated_rows_le id none rs = omega arith
  updated_rows_le id (some u) rs =
      count_by-update_le by_key (report_is id) (apply_condition_update u) rs (λ r e h. h)

  refreshed_rows_le :
      (c : ConfirmParams) (o : Option Freshness) (rs : List Report)
      → count_by by_key (refreshed_rows c o rs) ≤ count_by by_key rs
  refreshed_rows_le c none rs = omega arith
  refreshed_rows_le c (some f) rs = omega (
    arith,
    updated_rows_le c.report_id c.update
        (update_where (report_is c.report_id) (renewed f c.now) rs),
    count_by-update_le by_key (report_is c.report_id) (renewed f c.now) rs (λ r e h. h),
  )

  settled_le :
      (c : ConfirmParams) (before : Option ℤ) (s : Tables)
      → count_by by_key (settle c before s).reports ≤ count_by by_key s.reports
  unfolding settle
  settled_le c before s = omega (
    arith,
    count_by-update_le by_key (report_is c.report_id) (resolved_to _ c.now)
        (refreshed_rows c c.refresh s.reports) (λ r e h. h),
    refreshed_rows_le c c.refresh s.reports,
  )

  pub hidden_le :
      (s : Tables) (id : ℕ) (hide : Bool) (reason : HiddenReason) (now : ℤ)
      → count_by by_key (set_hidden s id hide reason now).reports ≤ count_by by_key s.reports
  unfolding set_hidden
  hidden_le s id true reason now =
      count_by-update_le by_key (report_is id) (hide_row reason now) s.reports (λ r e h. h)
  hidden_le s id false reason now =
      count_by-update_le by_key (report_is id) show_row s.reports (λ r e h. h)

id_clash :
    (r : Report) (id : ℕ)
    → (r.id == id) ≡ true
    → (x : Report) → (x.id == id) ≡ true
    → clashes r x ≡ true
unfolding clashes
id_clash r id e x k = ground arith

same_client_id_text :
    (c : Text) (a o : Option Text)
    → is_text o c ≡ true
    → is_text a c ≡ true
    → same_client_id a o ≡ true
unfolding same_client_id is_text
same_client_id_text c a none e k = absurd (cc e)
same_client_id_text c none (some t) e k = absurd (cc k)
same_client_id_text c (some u) (some t) e k = same_text t u c e k

client_clash :
    (r : Report) (c : Text)
    → is_text r.client_id c ≡ true
    → (x : Report) → is_text x.client_id c ≡ true
    → clashes r x ≡ true
unfolding clashes
client_clash r c e x k = ground (arith, same_client_id_text c x.client_id r.client_id e k)

pub create-Keys : (s : Tables) (r : Report) → Keys s → Keys (store_after s (create s r))
unfolding create
create-Keys s r h = elim (Bool-cases (any (clashes r) s.reports)) [
  | inl e ↦ rw e h
  | inr free ↦ rw free (record {
    one_row = λ id.
        inserted_le (report_is id) (clashes r) (inserted r) s.reports (id_clash r id) (h.one_row id)
          free;
    one_client_id = λ c.
        inserted_le (of_client c) (clashes r) (inserted r) s.reports (client_clash r c)
          (h.one_client_id c) free;
    one_vote = h.one_vote;
    one_complaint = h.one_complaint;
    one_reaction = h.one_reaction;
  })
]

vote_again :
    (c : ConfirmParams) (id : ℕ) (d : Text)
    → of_device id d (first_vote c) ≡ true
    → (v : Vote) → of_device id d v ≡ true
    → of_device c.report_id c.device_id v ≡ true
vote_again c id d e v k = ground (arith, same_text c.device_id v.device_id d)

voted_le :
    (c : ConfirmParams) (votes : List Vote) (id : ℕ) (d : Text)
    → count_by (of_device id d) votes ≤ 1
    → count_by (of_device id d) (upsert_vote c votes) ≤ 1
unfolding upsert_vote
voted_le c votes id d one =
    upserted_le (of_device id d) (of_device c.report_id c.device_id) (first_vote c) votes
      (vote_again c id d) one (voted_again c.status c.now) (λ v k. k)

pub confirm-Keys : (s : Tables) (c : ConfirmParams) → Keys s → Keys (store_after s (confirm s c))
unfolding confirm settle
confirm-Keys s c h = go (row_of s c.report_id)
  where
    settles : (before : Option ℤ) → Keys (settle c before s)
    settles before = record {
      one_row = λ id. omega (arith, h.one_row id, settled_le (λ i x. i == id) c before s);
      one_client_id =
          λ t. omega (arith, h.one_client_id t, settled_le (λ i x. is_text x t) c before s);
      one_vote = λ id d. voted_le c s.votes id d (h.one_vote id d);
      one_complaint = h.one_complaint;
      one_reaction = h.one_reaction;
    }

    go : (o : Option Report) → Keys (store_after s (confirm_locked c o s))
    go none = h
    go (some r) = settles r.resolved_at
