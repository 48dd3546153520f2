-- ===== src/NotifyDedup/Guard/Refinement.antt =====
-- What the guard promises, without keys, expiries and sweeps, and that `Guard` keeps it.
use jira_bot.Base.{
  ℕ, ◌+◌, ◌≤◌, ◌≡◌, refl, sym, ap, ap₂, subst, ◌∙◌, Bool, true, false, not, ◌&&◌, List, [], ◌∷◌,
  some, arith, ltb, inl, inr, Bool-cases, if◌then◌else◌, Text, ℤ, int_eq, text_eq, pair_eq, ◌==◌,
  lookup, lookup-insert, lookup-sift, insert, sift, insert-HasUniqueKeys, sift-HasUniqueKeys,
  ==_iff,
}
use jira_bot.NotifyDedup.Key.{IsInt64, format_key, format_key-injective}
use jira_bot.NotifyDedup.Guard.{Guard, new, is_blocked, allow, cleanup, Op, allows, tick}
use jira_bot.NotifyDedup.Guard.Window.{IsValid}

-- The end of the window of each pair of a chat and an issue, 0 where there was none.
abbrev pub Windows : Type 0
Windows = ℤ → Text → ℕ

abbrev pub window_set : Windows → ℤ → Text → ℕ → Windows
window_set w chat issue end =
    λ chat' issue'. if chat == chat' && issue == issue' then end else w chat' issue'

-- A call is let through outside of the window of its pair, and starts a new one.
abbrev pub spec_allow : ℕ → Windows → ℤ → Text → ℕ → ℕ → Windows × Bool
spec_allow ttl w chat issue now later =
    if ltb now (w chat issue) then (w, false) else (window_set w chat issue (later + ttl), true)

-- The answers to the calls; ticks have none.
unfoldable pub answers : Guard → List Op → List Bool
answers g [] = []
answers g (allows chat issue now later ∷ ops) =
    let r = allow g chat issue now later in r.1 ∷ answers r.0 ops
answers g (tick now ∷ ops) = answers (cleanup g now) ops

unfoldable pub spec_answers : ℕ → Windows → List Op → List Bool
spec_answers ttl w [] = []
spec_answers ttl w (allows chat issue now later ∷ ops) =
    let r = spec_allow ttl w chat issue now later in r.1 ∷ spec_answers ttl r.0 ops
spec_answers ttl w (tick now ∷ ops) = spec_answers ttl w ops

-- The clock does not go back, and chats are int64 numbers.
abbrev pub IsOrdered : ℕ → List Op → Type 0
IsOrdered t [] = Unit
IsOrdered t (allows chat issue now later ∷ ops) = (t ≤ now) × (IsInt64 chat × IsOrdered now ops)
IsOrdered t (tick now ∷ ops) = (t ≤ now) × IsOrdered now ops

-- From `t` on the guard blocks what the windows block.
record Simulates (ttl t : ℕ) (g : Guard) (w : Windows) : Type 0 where
  valid : IsValid g
  same_ttl : g.ttl ≡ ttl
  agree :
      (chat : ℤ) (issue : Text) (now : ℕ)
      → IsInt64 chat
      → t ≤ now
      → is_blocked (lookup (format_key chat issue) g.sent) now ≡ ltb now (w chat issue)

same_pair :
    (chat chat' : ℤ) (issue issue' : Text)
    → IsInt64 chat
    → IsInt64 chat'
    → (format_key chat issue == format_key chat' issue') ≡ (chat == chat' && issue == issue')
same_pair chat chat' issue issue' h h' =
    elim (Bool-cases (format_key chat issue == format_key chat' issue')) [
      | inl e ↦
          let pair =
            format_key-injective chat chat' issue issue' h h'
              ((==_iff (format_key chat issue) (format_key chat' issue')).0 e) in
          ground (arith, ==_iff chat chat', ==_iff issue issue', e, pair.0, pair.1)
      | inr e ↦ elim (Bool-cases (chat == chat' && issue == issue')) [
        | inr f ↦ e ∙ sym f
        | inl f ↦ absurd (clash f e)
      ]
    ]
  where
    clash :
        (chat == chat' && issue == issue') ≡ true
        → (format_key chat issue == format_key chat' issue') ≡ false
        → ⊥
    clash f e =
        let c : chat ≡ chat' = ground (arith, ==_iff chat chat') in
        let i : issue ≡ issue' = ground (arith, ==_iff issue issue') in
        let k : format_key chat issue ≡ format_key chat' issue' = ap₂ format_key c i in
        ground (arith, ==_iff (format_key chat issue) (format_key chat' issue'))

abbrev recorded : Guard → ℤ → Text → ℕ → Guard
recorded g chat issue later = record g {
  sent = insert (format_key chat issue) (later + g.ttl) g.sent;
}

allow_blocked :
    (g : Guard) (chat : ℤ) (issue : Text) (now later : ℕ)
    → is_blocked (lookup (format_key chat issue) g.sent) now ≡ true
    → allow g chat issue now later ≡ (g, false)
unfolding allow
allow_blocked g chat issue now later b = rw b refl

allow_free :
    (g : Guard) (chat : ℤ) (issue : Text) (now later : ℕ)
    → is_blocked (lookup (format_key chat issue) g.sent) now ≡ false
    → allow g chat issue now later ≡ (recorded g chat issue later, true)
unfolding allow
allow_free g chat issue now later b = rw b refl

module _ (ttl : ℕ) where
  -- One answer is the other, and the states still agree.
  abbrev Matches : ℕ → Guard × Bool → Windows × Bool → Type 0
  Matches now a c = (a.1 ≡ c.1) × Simulates ttl now a.0 c.0

  later-Simulates :
      (t now : ℕ) (g : Guard) (w : Windows) → t ≤ now → Simulates ttl t g w → Simulates ttl now g w
  later-Simulates t now g w le s = record {
    valid = s.valid;
    same_ttl = s.same_ttl;
    agree = λ chat issue now' int le'. s.agree chat issue now' int (omega arith);
  }

  recorded-agree :
      (t : ℕ) (g : Guard) (w : Windows) (chat chat' : ℤ) (issue issue' : Text) (later now' : ℕ)
      → IsInt64 chat
      → IsInt64 chat'
      → t ≤ now'
      → Simulates ttl t g w
      → is_blocked (lookup (format_key chat' issue') (recorded g chat issue later).sent) now'
        ≡ ltb now' (window_set w chat issue (later + ttl) chat' issue')
  recorded-agree t g w chat chat' issue issue' later now' int int' le s =
      ap (λ o. is_blocked o now')
        (lookup-insert (format_key chat issue) (format_key chat' issue') (later + g.ttl) g.sent)
      ∙ ap
          (λ (b : Bool).
            is_blocked (if b then some (later + g.ttl) else lookup (format_key chat' issue') g.sent)
              now')
          (same_pair chat chat' issue issue' int int')
      ∙ by_pair (chat == chat' && issue == issue')
    where
      by_pair :
          (b : Bool)
          → is_blocked
              (if b then some (later + g.ttl) else lookup (format_key chat' issue') g.sent)
              now'
            ≡ ltb now' (if b then later + ttl else w chat' issue')
      by_pair true = ap (λ n. ltb now' (later + n)) s.same_ttl
      by_pair false = s.agree chat' issue' now' int' le

  allow-Matches :
      (t : ℕ) (g : Guard) (w : Windows) (chat : ℤ) (issue : Text) (now later : ℕ)
      → IsInt64 chat
      → t ≤ now
      → Simulates ttl t g w
      → Matches now (allow g chat issue now later) (spec_allow ttl w chat issue now later)
  allow-Matches t g w chat issue now later int le s =
      elim (Bool-cases (is_blocked (lookup (format_key chat issue) g.sent) now)) [
        | inl b ↦
            let b' : ltb now (w chat issue) ≡ true = sym (s.agree chat issue now int le) ∙ b in
            subst (λ a. Matches now a (spec_allow ttl w chat issue now later))
              (sym (allow_blocked g chat issue now later b))
              (rw b' (refl, later-Simulates t now g w le s))
        | inr b ↦
            let b' : ltb now (w chat issue) ≡ false = sym (s.agree chat issue now int le) ∙ b in
            let valid' : IsValid (recorded g chat issue later) =
              insert-HasUniqueKeys (format_key chat issue) (later + g.ttl) g.sent s.valid in
            subst (λ a. Matches now a (spec_allow ttl w chat issue now later))
              (sym (allow_free g chat issue now later b))
              (rw b' (
                refl,
                record {
                  valid = valid';
                  same_ttl = s.same_ttl;
                  agree = λ chat' issue' now' int' le'.
                      recorded-agree t g w chat chat' issue issue' later now' int int' (omega arith)
                        s;
                },
              ))
      ]

  cleanup-Simulates :
      (t : ℕ) (g : Guard) (w : Windows) (now : ℕ)
      → t ≤ now
      → Simulates ttl t g w
      → Simulates ttl now (cleanup g now) w
  unfolding cleanup
  cleanup-Simulates t g w now le s = record {
    valid = sift-HasUniqueKeys (λ exp. not (ltb exp now)) g.sent s.valid;
    same_ttl = s.same_ttl;
    agree = λ chat issue now' int le'.
        swept (format_key chat issue) now' le' ∙ s.agree chat issue now' int (omega arith);
  }
    where
      swept :
          (key : Text) (now' : ℕ)
          → now ≤ now'
          → is_blocked (lookup key (sift (λ exp. not (ltb exp now)) g.sent)) now'
            ≡ is_blocked (lookup key g.sent) now'
      swept key now' le' = ground (arith, lookup-sift (λ exp. not (ltb exp now)) key g.sent s.valid)

  answers-Simulates :
      (ops : List Op) (t : ℕ) (g : Guard) (w : Windows)
      → IsOrdered t ops
      → Simulates ttl t g w
      → answers g ops ≡ spec_answers ttl w ops
  unfolding answers spec_answers
  answers-Simulates [] t g w ordered s = refl
  answers-Simulates (allows chat issue now later ∷ ops) t g w (le, (int, ordered)) s =
      let m = allow-Matches t g w chat issue now later int le s in
      ap₂ (λ b bs. b ∷ bs) m.0
        (answers-Simulates ops now (allow g chat issue now later).0
          (spec_allow ttl w chat issue now later).0 ordered m.1)
  answers-Simulates (tick now ∷ ops) t g w (le, ordered) s =
      answers-Simulates ops now (cleanup g now) w ordered (cleanup-Simulates t g w now le s)

-- The guard implements its specification: from a new guard on, through any calls and ticks whose clock readings do not go
-- back, for int64 chats, it gives exactly the answers of the windows of the pairs of chat and issue, which know nothing of text
-- keys and are never swept.
pub guard-refines :
    (ttl : ℕ) (ops : List Op)
    → IsOrdered 0 ops
    → answers (new ttl) ops ≡ spec_answers ttl (λ chat issue. 0) ops
unfolding new lookup
guard-refines ttl ops ordered =
    answers-Simulates ttl ops 0 (new ttl) (λ chat issue. 0) ordered
      (record { valid = tt; same_ttl = refl; agree = λ chat issue now int le. nothing now })
  where
    nothing : (now : ℕ) → false ≡ ltb now 0
    nothing now = ground arith
