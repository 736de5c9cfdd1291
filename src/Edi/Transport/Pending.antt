-- ===== src/Edi/Transport/Pending.antt =====
-- The map of the fragments that wait: its order, and what a round takes out of it.
use odr_source_companion.Base.{
  ℕ, suc, ◌+◌, ◌*◌, ◌<◌, ◌≤◌, ltb, leb, ◌==◌, true, false, Bool-cases, inl, inr, List, [], ◌∷◌,
  ◌++◌, length, append_assoc, append-nil, le→ltb, if_true, if_false, ◌≡◌, refl, ap, sym, ◌∙◌, subst,
  arith,
}
use odr_source_companion.Edi.Transport.{Pending, insert_at, schedule, due}

abbrev pub AllBelow : ℕ → Pending → Type 0
AllBelow n [] = Unit
AllBelow n ((t, fragment) ∷ rest) = (t < n) × AllBelow n rest

abbrev pub AllAbove : ℕ → Pending → Type 0
AllAbove n [] = Unit
AllAbove n ((t, fragment) ∷ rest) = (n < t) × AllAbove n rest

-- The keys grow, and so differ.
abbrev pub Ascending : Pending → Type 0
Ascending [] = Unit
Ascending ((t, fragment) ∷ rest) = AllAbove t rest × Ascending rest

-- Fragments `wait` apart.
abbrev pub timed : ℕ → ℕ → List (List ℕ) → Pending
timed wait tp [] = []
timed wait tp (fragment ∷ fragments) = (tp, fragment) ∷ timed wait (tp + wait) fragments

abbrev pub fragments_of : Pending → List (List ℕ)
fragments_of [] = []
fragments_of ((t, fragment) ∷ rest) = fragment ∷ fragments_of rest

pub fragments_of-append :
    (ps qs : Pending) → fragments_of (ps ++ qs) ≡ fragments_of ps ++ fragments_of qs
fragments_of-append [] qs = refl
fragments_of-append ((t, f) ∷ rest) qs = ap (λ fs. f ∷ fs) (fragments_of-append rest qs)

pub fragments_of-timed : (wait tp : ℕ) (fs : List (List ℕ)) → fragments_of (timed wait tp fs) ≡ fs
fragments_of-timed wait tp [] = refl
fragments_of-timed wait tp (f ∷ fs) = ap (λ gs. f ∷ gs) (fragments_of-timed wait (tp + wait) fs)

pub AllBelow-weaken : (m n : ℕ) (ps : Pending) → m ≤ n → AllBelow m ps → AllBelow n ps
AllBelow-weaken m n [] h b = tt
AllBelow-weaken m n ((t, f) ∷ rest) h b = (omega (arith, b.0), AllBelow-weaken m n rest h b.1)

pub AllBelow-append :
    (n : ℕ) (ps qs : Pending) → AllBelow n ps → AllBelow n qs → AllBelow n (ps ++ qs)
AllBelow-append n [] qs h k = k
AllBelow-append n ((t, f) ∷ rest) qs h k = (h.0, AllBelow-append n rest qs h.1 k)

-- The last of the fragments is before `tp` and a wait for each.
pub timed-AllBelow :
    (wait tp : ℕ) (fs : List (List ℕ))
    → 0 < wait
    → AllBelow (tp + length fs * wait) (timed wait tp fs)
timed-AllBelow wait tp [] pos = tt
timed-AllBelow wait tp (f ∷ fs) pos = (
  omega (arith, pos),
  subst (λ (n : ℕ). AllBelow n (timed wait (tp + wait) fs)) (omega arith)
      (timed-AllBelow wait (tp + wait) fs pos),
)

insert_at-last :
    (tp : ℕ) (f : List ℕ) (ps : Pending) → AllBelow tp ps → insert_at tp f ps ≡ ps ++ (tp, f) ∷ []
unfolding insert_at
insert_at-last tp f [] h = refl
insert_at-last tp f ((t, held) ∷ rest) h =
    let later = insert_at-last tp f rest h.1 in
    let other : (tp == t) ≡ false = ground (arith, h.0) in
    if_false (tp == t) _ _ other
    ∙ if_false (ltb tp t) _ _ (le→ltb tp t (omega (arith, h.0)))
    ∙ ap (λ (qs : Pending). (t, held) ∷ qs) later

-- New fragments, later than those that wait, stand behind them.
pub schedule-append :
    (wait tp : ℕ) (fs : List (List ℕ)) (ps : Pending)
    → 0 < wait
    → AllBelow tp ps
    → schedule wait tp fs ps ≡ ps ++ timed wait tp fs
unfolding schedule
schedule-append wait tp [] ps pos h = sym (append-nil ps)
schedule-append wait tp (f ∷ fs) ps pos h =
    let below : AllBelow (tp + wait) (ps ++ (tp, f) ∷ []) =
      AllBelow-append (tp + wait) ps ((tp, f) ∷ [])
        (AllBelow-weaken tp (tp + wait) ps (omega arith) h) (omega (arith, pos), tt) in
    ap (schedule wait (tp + wait) fs) (insert_at-last tp f ps h)
    ∙ schedule-append wait (tp + wait) fs (ps ++ (tp, f) ∷ []) pos below
    ∙ append_assoc ps ((tp, f) ∷ []) (timed wait (tp + wait) fs)

AllAbove-weaken : (m n : ℕ) (ps : Pending) → m ≤ n → AllAbove n ps → AllAbove m ps
AllAbove-weaken m n [] h b = tt
AllAbove-weaken m n ((t, f) ∷ rest) h b = (omega (arith, b.0), AllAbove-weaken m n rest h b.1)

insert_at-AllAbove :
    (n tp : ℕ) (f : List ℕ) (ps : Pending) → n < tp → AllAbove n ps → AllAbove n (insert_at tp f ps)
unfolding insert_at
insert_at-AllAbove n tp f [] h a = (h, tt)
insert_at-AllAbove n tp f ((t, held) ∷ rest) h a =
    let later = insert_at-AllAbove n tp f rest h a.1 in
    elim (Bool-cases (tp == t)) [
      | inl e ↦ subst (AllAbove n) (sym (if_true (tp == t) _ _ e)) (h, a.1)
      | inr e ↦ elim (Bool-cases (ltb tp t)) [
        | inl l ↦
            subst (AllAbove n) (sym (if_false (tp == t) _ _ e ∙ if_true (ltb tp t) _ _ l)) (h, a)
        | inr l ↦
            subst (AllAbove n) (sym (if_false (tp == t) _ _ e ∙ if_false (ltb tp t) _ _ l))
              (a.0, later)
      ]
    ]

insert_at-Ascending :
    (tp : ℕ) (f : List ℕ) (ps : Pending) → Ascending ps → Ascending (insert_at tp f ps)
unfolding insert_at
insert_at-Ascending tp f [] a = (tt, tt)
insert_at-Ascending tp f ((t, held) ∷ rest) a =
    let later = insert_at-Ascending tp f rest a.1 in
    elim (Bool-cases (tp == t)) [
      | inl e ↦
          let same : tp ≡ t = ground arith in
          subst Ascending (sym (if_true (tp == t) _ _ e))
            (subst (λ (u : ℕ). AllAbove u rest) (sym same) a.0, a.1)
      | inr e ↦ elim (Bool-cases (ltb tp t)) [
        | inl l ↦
            let before : tp < t = ground arith in
            subst Ascending (sym (if_false (tp == t) _ _ e ∙ if_true (ltb tp t) _ _ l))
              ((before, AllAbove-weaken tp t rest (omega arith) a.0), a)
        | inr l ↦
            let behind : t < tp = ground arith in
            subst Ascending (sym (if_false (tp == t) _ _ e ∙ if_false (ltb tp t) _ _ l))
              (insert_at-AllAbove t tp f rest behind a.0, later)
      ]
    ]

-- Whatever the times, the map stays in its order.
pub schedule-Ascending :
    (wait tp : ℕ) (fs : List (List ℕ)) (ps : Pending)
    → Ascending ps
    → Ascending (schedule wait tp fs ps)
unfolding schedule
schedule-Ascending wait tp [] ps a = a
schedule-Ascending wait tp (f ∷ fs) ps a =
    schedule-Ascending wait (tp + wait) fs (insert_at tp f ps) (insert_at-Ascending tp f ps a)

-- What a round at `now` sends stands before what it keeps, which is later.
pub record Due (now : ℕ) (ps : Pending) (sent : List (List ℕ)) (kept : Pending) : Type 0 where
  pub in_order : sent ++ fragments_of kept ≡ fragments_of ps
  pub still_ascending : Ascending kept
  pub not_due : AllAbove now kept
  pub still_below : (n : ℕ) → AllBelow n ps → AllBelow n kept

due-none : (now n : ℕ) (ps : Pending) → now ≤ n → AllAbove n ps → due now ps ≡ ([], ps)
unfolding due
due-none now n [] h a = refl
due-none now n ((t, f) ∷ rest) h a =
    let later = due-none now n rest h a.1 in
    let wait : leb t now ≡ false = ground (arith, a.0) in
    if_false (leb t now) _ _ wait ∙ ap (λ (r : List (List ℕ) × Pending). (r.0, (t, f) ∷ r.1)) later

pub due-Due : (now : ℕ) (ps : Pending) → Ascending ps → Due now ps (due now ps).0 (due now ps).1
unfolding due
due-Due now [] a = record {
  in_order = refl;
  still_ascending = tt;
  not_due = tt;
  still_below = λ n b. tt;
}
due-Due now ((t, f) ∷ rest) a =
    let later = due-Due now rest a.1 in
    let whole = λ (r : List (List ℕ) × Pending). Due now ((t, f) ∷ rest) r.0 r.1 in
    elim (Bool-cases (leb t now)) [
      | inl e ↦ subst whole (sym (if_true (leb t now) _ _ e)) (record {
        in_order = ap (λ (fs : List (List ℕ)). f ∷ fs) later.in_order;
        still_ascending = later.still_ascending;
        not_due = later.not_due;
        still_below = λ n b. later.still_below n b.1;
      })
      | inr e ↦
          let above : now < t = ground arith in
          let none_due = due-none now t rest (omega arith) a.0 in
          subst whole
            (sym (
              if_false (leb t now) _ _ e
              ∙ ap (λ (r : List (List ℕ) × Pending). (r.0, (t, f) ∷ r.1)) none_due))
            (record {
              in_order = refl;
              still_ascending = a;
              not_due = (above, AllAbove-weaken now t rest (omega arith) a.0);
              still_below = λ n b. b;
            })
    ]

pub due-all : (now : ℕ) (ps : Pending) → AllBelow (suc now) ps → due now ps ≡ (fragments_of ps, [])
unfolding due
due-all now [] b = refl
due-all now ((t, f) ∷ rest) b =
    let later = due-all now rest b.1 in
    let ready : leb t now ≡ true = ground (arith, b.0) in
    if_true (leb t now) _ _ ready ∙ ap (λ (r : List (List ℕ) × Pending). (f ∷ r.0, r.1)) later
