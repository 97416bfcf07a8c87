-- ===== src/Rpc/Settled.antt =====
-- What several messages, one after the other, do to a request.
use mathlib.Core.List.{append-nil}
use agent_cockpit.Base.{
  ℕ, ◌≡◌, refl, ap, sym, ◌∙◌, Bool, true, false, ◌&&◌, ◌||◌, Option, none, some, List, [], ◌∷◌,
  ◌++◌, arith,
}
use agent_cockpit.Base.{Text, if◌then◌else◌, All, any, keep, is_some}
use agent_cockpit.Tabs.Stored.{Json}
use agent_cockpit.Rpc.{HelperRpcClient, Effect, Step, find_call, dispatch, then_all, dispatch_all}
use agent_cockpit.Rpc.Responses.{
  answers, outcome, first_answer, settles, has_data, keep-append, ActsIf, dispatch-Acts,
}

pub if_same : {A : Type 0} (b : Bool) (x : A) → (if b then x else x) ≡ x
if_same true x = refl
if_same false x = refl

pub All-split :
    (xs ys : List Json)
    → All (λ m. has_data m ≡ true) (xs ++ ys)
    → All (λ m. has_data m ≡ true) xs × All (λ m. has_data m ≡ true) ys
All-split [] ys a = (tt, a)
All-split (x ∷ xs) ys (here, rest) =
    let (early, late) = All-split xs ys rest in ((here, early), late)

-- What one message leaves to the messages after it.
both :
    (b u : Bool) (p q r : Option Text) (x : Effect) (fs es gs : List Effect)
    → es ≡ (if b && is_some p then x ∷ [] else [])
    → q ≡ (if b then none else p)
    → gs ≡ (if is_some q then fs else [])
    → r ≡ (if u then none else q)
    → (es ++ gs ≡ (if is_some p then if b then x ∷ [] else fs else []))
      × (r ≡ (if b || u then none else p))
both true true none q r x fs es gs a l g s = ground arith
both true true (some m) q r x fs es gs a l g s = ground arith
both true false p q r x fs es gs a l g s = ground arith
both false u p q r x fs es gs a l g s = ground arith

-- What the first messages leave to those after them.
whole :
    (b u : Bool) (p q r : Option Text) (ds fs es gs : List Effect)
    → (b ≡ false → ds ≡ [])
    → es ≡ (if is_some p then ds else [])
    → q ≡ (if b then none else p)
    → gs ≡ (if is_some q then fs else [])
    → r ≡ (if u then none else q)
    → (es ++ gs ≡ (if is_some p then if b then ds else fs else []))
      × (r ≡ (if b || u then none else p))
whole true u p q r ds fs es gs n a l g s =
    let quiet : gs ≡ [] = g ∙ ap (λ o. if is_some o then fs else []) l in
    (ap (λ t. es ++ t) quiet ∙ append-nil es ∙ a, ground arith)
whole false u none q r ds fs es gs n a l g s = ground arith
whole false u (some m) q r ds fs es gs n a l g s =
    let quiet : es ≡ [] = a ∙ n refl in (ap (λ t. t ++ gs) quiet ∙ ground arith, ground arith)

module _ (k : ℕ) where
  -- Several messages: the first that answers a pending request settles it.
  abbrev pub Settled : List Json → HelperRpcClient → Step → Type 0
  Settled msgs c step =
      (keep (settles k) step.1
        ≡ (if is_some (find_call k c.pending) then first_answer k msgs else []))
      × (find_call k step.0.pending
          ≡ (if any (answers k) msgs then none else find_call k c.pending))

  then_all-Settled :
      (o : Option Step) (f : HelperRpcClient → Step) (msg : Json) (msgs : List Json)
      (c : HelperRpcClient)
      → ActsIf k (answers k msg) msg c o
      → ((d : HelperRpcClient) → Settled msgs d (f d))
      → Settled (msg ∷ msgs) c (then_all o f c)
  then_all-Settled none f msg msgs c h all = elim h [ ]
  then_all-Settled (some (d, es)) f msg msgs c (acts, left) all =
      let (more, after) = all d in
      let (first, last) =
        both (answers k msg) (any (answers k) msgs) (find_call k c.pending) (find_call k d.pending)
          (find_call k (f d).0.pending) (outcome k msg) (first_answer k msgs) (keep (settles k) es)
          (keep (settles k) (f d).1) acts left more after in
      (keep-append k es (f d).1 ∙ first, last)

  pub dispatch_all-Settled :
      (msgs : List Json) (c : HelperRpcClient)
      → All (λ m. has_data m ≡ true) msgs
      → Settled msgs c (dispatch_all msgs c)
  unfolding dispatch_all
  dispatch_all-Settled [] c h = (sym (if_same (is_some (find_call k c.pending)) []), refl)
  dispatch_all-Settled (msg ∷ msgs) c (here, later) =
      then_all-Settled (dispatch msg c) (dispatch_all msgs) msg msgs c (dispatch-Acts k msg c here)
        (λ d. dispatch_all-Settled msgs d later)

  first_answer-append :
      (xs ys : List Json)
      → first_answer k (xs ++ ys)
        ≡ (if any (answers k) xs then first_answer k xs else first_answer k ys)
  first_answer-append [] ys = refl
  first_answer-append (x ∷ xs) ys = ground (arith, first_answer-append xs ys)

  first_answer-none : (xs : List Json) → any (answers k) xs ≡ false → first_answer k xs ≡ []
  first_answer-none [] h = refl
  first_answer-none (x ∷ xs) h = ground (arith, first_answer-none xs)

  any-append :
      (xs ys : List Json) → any (answers k) (xs ++ ys) ≡ (any (answers k) xs || any (answers k) ys)
  any-append [] ys = refl
  any-append (x ∷ xs) ys = ground (arith, any-append xs ys)

  pub Settled-append :
      (xs ys : List Json) (c d e : HelperRpcClient) (es fs : List Effect)
      → Settled xs c (d, es)
      → Settled ys d (e, fs)
      → Settled (xs ++ ys) c (e, es ++ fs)
  Settled-append xs ys c d e es fs (a, l) (g, s) =
      let (first, last) =
        whole (any (answers k) xs) (any (answers k) ys) (find_call k c.pending)
          (find_call k d.pending) (find_call k e.pending) (first_answer k xs) (first_answer k ys)
          (keep (settles k) es) (keep (settles k) fs) (first_answer-none xs) a l g s in
      (
        keep-append k es fs
            ∙ first
            ∙ ap (λ t. if is_some (find_call k c.pending) then t else [])
                (sym (first_answer-append xs ys)),
        last ∙ ap (λ b. if b then none else find_call k c.pending) (sym (any-append xs ys)),
      )
