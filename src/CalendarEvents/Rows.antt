-- ===== src/CalendarEvents/Rows.antt =====
-- The rows stand under their own keys, and no operation but a deletion takes a flag back.
use jira_bot.Base.{
  ℕ, ◌≡◌, refl, inl, inr, Bool-cases, Option-cases, true, Option, some, arith, text_eq, int_eq,
  nat_eq, pair_eq, ◌==◌, ==_iff, ==_refl, lookup, insert, lookup-insert,
}
use jira_bot.CalendarEvents.{
  EventState, EventKey, Rows, key_of, written, upsert_state, update_row, mark_reminder_sent,
  mark_notified_new,
}

-- A flag that is set in `row` is set in what `key` leads to.
pub record KeepsFlags (row : EventState) (found : Option EventState) : Type 0 where
  pub row' : EventState
  pub there : found ≡ some row'
  pub reminder : row.reminder_sent ≡ true → row'.reminder_sent ≡ true
  pub notified : row.notified_new ≡ true → row'.notified_new ≡ true

KeepsFlags-refl : (row : EventState) (o : Option EventState) → o ≡ some row → KeepsFlags row o
KeepsFlags-refl row o e = record { row' = row; there = e; reminder = λ h. h; notified = λ h. h }

-- A write to a row that keeps the flags of the one that was there.
insert-KeepsFlags :
    (rows : Rows) (key key' : EventKey) (row new : EventState)
    → lookup key rows ≡ some row
    → (key' ≡ key
        → (row.reminder_sent ≡ true → new.reminder_sent ≡ true)
          × (row.notified_new ≡ true → new.notified_new ≡ true))
    → KeepsFlags row (lookup key (insert key' new rows))
insert-KeepsFlags rows key key' row new e keeps = elim (Bool-cases (key' == key)) [
  | inl hit ↦
      let (r, n) = keeps ((==_iff key' key).0 hit) in
      record {
        row' = new;
        there = rw (lookup-insert key' key new rows, hit) refl;
        reminder = r;
        notified = n;
      }
  | inr miss ↦ KeepsFlags-refl row _ (rw (lookup-insert key' key new rows, miss) e)
]

written-reminder :
    (prev : EventState) (s : EventState) (now : ℕ)
    → (prev.reminder_sent ≡ true → (written (some prev) s now).reminder_sent ≡ true)
      × (prev.notified_new ≡ true → (written (some prev) s now).notified_new ≡ true)
written-reminder prev s now = (λ h. ground arith, λ h. ground arith)

-- `UpsertState` keeps every flag of every row.
pub upsert_state-KeepsFlags :
    (rows : Rows) (s : EventState) (now : ℕ) (key : EventKey) (row : EventState)
    → lookup key rows ≡ some row
    → KeepsFlags row (lookup key (upsert_state rows s now).0)
unfolding upsert_state
upsert_state-KeepsFlags rows s now key row e =
    insert-KeepsFlags rows key (key_of s) row (written (lookup (key_of s) rows) s now) e λ same.
      (let found : lookup (key_of s) rows ≡ some row = rw same e in
        rw found (written-reminder row s now))

update_row-KeepsFlags :
    (f : EventState → EventState) (rows : Rows) (key key' : EventKey) (row : EventState)
    → ((r : EventState)
        → (r.reminder_sent ≡ true → (f r).reminder_sent ≡ true)
          × (r.notified_new ≡ true → (f r).notified_new ≡ true))
    → lookup key rows ≡ some row
    → KeepsFlags row (lookup key (update_row f key' (lookup key' rows) rows))
update_row-KeepsFlags f rows key key' row keeps e = elim (Option-cases (lookup key' rows)) [
  | inl missing ↦ rw missing (KeepsFlags-refl row _ e)
  | inr (old, there) ↦ rw there (
      insert-KeepsFlags rows key key' row (f old) e λ same.
        (let found : lookup key' rows ≡ some row = rw same e in
          let one : old ≡ row = ground arith in rw one (keeps row)))
]

-- So do the two marks.
pub marks-KeepsFlags :
    (rows : Rows) (now : ℕ) (key key' : EventKey) (row : EventState)
    → lookup key rows ≡ some row
    → KeepsFlags row (lookup key (mark_reminder_sent rows key' now))
      × KeepsFlags row (lookup key (mark_notified_new rows key' now))
unfolding mark_reminder_sent mark_notified_new
marks-KeepsFlags rows now key key' row e = (
  update_row-KeepsFlags (λ r. record r { reminder_sent = true; seen_at = now }) rows key key' row
      (λ r. (λ h. refl, λ h. h)) e,
  update_row-KeepsFlags (λ r. record r { notified_new = true; seen_at = now }) rows key key' row
      (λ r. (λ h. h, λ h. refl)) e,
)

-- `MarkReminderSent` sets the flag of the row that is there.
pub mark_reminder_sent-sets :
    (rows : Rows) (now : ℕ) (key : EventKey) (row : EventState)
    → lookup key rows ≡ some row
    → (row' : EventState) × (lookup key (mark_reminder_sent rows key now) ≡ some row')
      × (row'.reminder_sent ≡ true)
unfolding mark_reminder_sent
mark_reminder_sent-sets rows now key row e =
    let new : EventState = record row { reminder_sent = true; seen_at = now } in
    (new, rw e (rw (lookup-insert key key new rows, ==_refl key) refl), refl)
