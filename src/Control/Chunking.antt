-- ===== src/Control/Chunking.antt =====
-- What the parser answers does not depend on how the stream is cut into chunks.
use agent_cockpit.Base.{
  ℕ, ◌≡◌, refl, ap, sym, ◌∙◌, Bool, true, false, Option, none, some, List, [], ◌∷◌, ◌++◌,
}
use agent_cockpit.Base.{
  Text, codes, if◌then◌else◌, starts_with, text_eq, not, ◌==◌, Bool-cases, inl, inr,
}
use mathlib.Core.List.{append_assoc}
use mathlib.Core.Path.{subst}
use agent_cockpit.Control.{
  TmuxControlParser, TmuxNotification, put_char, complete_lines, drop_return, lines_of, OpenReply,
  cut_blank, or_empty, notification, open_begin, handle_outside, handle_inside, handle_from, is_end,
  is_exit, after_close, reply, handle_line, handle_lines, feed,
}
use agent_cockpit.Control.Wrapper.{
  IsUnwrapped, strip-IsUnwrapped, front-IsUnwrapped, back-IsUnwrapped,
}

abbrev Pieces : Type 0
Pieces = List Text × Text

-- The lines of a text, with what follows it.
abbrev with_rest : Pieces → Text → Pieces
with_rest r b = (r.0 ++ (complete_lines (r.1 ++ b)).0, (complete_lines (r.1 ++ b)).1)

complete_lines-append : (a b : Text) → complete_lines (a ++ b) ≡ with_rest (complete_lines a) b
unfolding complete_lines
complete_lines-append [] b = refl
complete_lines-append (c ∷ a) b = elim (Bool-cases (c == 0x0a)) [
  | inl ends ↦ rw ends (ap {B = Pieces} (λ r. ([] ∷ r.0, r.1)) (complete_lines-append a b))
  | inr within ↦ rw within (go within (complete_lines a) (complete_lines-append a b))
]
  where
    longer :
        (rest : Text)
        → (c == 0x0a) ≡ false
        → complete_lines (c ∷ rest) ≡ put_char c (complete_lines rest)
    longer rest within = rw within refl

    go :
        (c == 0x0a) ≡ false
        → (r : Pieces) → complete_lines (a ++ b) ≡ with_rest r b
        → put_char c (complete_lines (a ++ b)) ≡ with_rest (put_char c r) b
    go within ([], rest) e = ap (put_char c) e ∙ sym (longer (rest ++ b) within)
    go within (l ∷ ls, rest) e = ap (put_char c) e

-- What follows the lines is the end of the text, and all of it when there are none.
abbrev IsEnd : Text → Pieces → Type 0
IsEnd s ([], rest) = s ≡ rest
IsEnd s (l ∷ ls, rest) = (x : Text) × (s ≡ x ++ rest)

put_char-IsEnd : (c : ℕ) (s : Text) (r : Pieces) → IsEnd s r → IsEnd (c ∷ s) (put_char c r)
put_char-IsEnd c s ([], rest) e = ap (◌∷◌ c) e
put_char-IsEnd c s (l ∷ ls, rest) (x, e) = (c ∷ x, ap (◌∷◌ c) e)

front_of : (s : Text) (r : Pieces) → IsEnd s r → (x : Text) × (s ≡ x ++ r.1)
front_of s ([], rest) e = ([], e)
front_of s (l ∷ ls, rest) h = h

complete_lines-IsEnd : (s : Text) → IsEnd s (complete_lines s)
unfolding complete_lines
complete_lines-IsEnd [] = refl
complete_lines-IsEnd (c ∷ s) = elim (Bool-cases (c == 0x0a)) [
  | inl ends ↦
      let (x, e) = front_of s (complete_lines s) (complete_lines-IsEnd s) in
      rw ends (c ∷ x, ap (◌∷◌ c) e)
  | inr within ↦ rw within (put_char-IsEnd c s (complete_lines s) (complete_lines-IsEnd s))
]

map-append : (xs ys : List Text) → lines_of (xs ++ ys) ≡ lines_of xs ++ lines_of ys
map-append [] ys = refl
map-append (x ∷ xs) ys = ap (λ r. drop_return x ∷ r) (map-append xs ys)

module _ {N : Type 0} (number : Option Text → N) where
  abbrev Handled : Type 0
  Handled = TmuxControlParser N × List (TmuxNotification N)

  -- What comes after, with the notifications before.
  abbrev pub after : List (TmuxNotification N) → Handled → Handled
  after ns h = (h.0, ns ++ h.1)

  handle_lines-append :
      (xs ys : List Text) (p : TmuxControlParser N)
      → handle_lines number (xs ++ ys) p
        ≡ after (handle_lines number xs p).1 (handle_lines number ys (handle_lines number xs p).0)
  unfolding handle_lines
  handle_lines-append [] ys p = refl
  handle_lines-append (x ∷ xs) ys p =
      let first : Handled = handle_line number x p in
      let second : Handled = handle_lines number xs first.0 in
      let third : Handled = handle_lines number ys second.0 in
      ap (after first.1) (handle_lines-append xs ys first.0)
      ∙ ap (λ l. (third.0, l)) (sym (append_assoc first.1 second.1 third.1))

  -- The buffer is neither read nor changed by a line.
  abbrev set_buffer : Text → Handled → Handled
  set_buffer s h = (record h.0 { buffer = s }, h.1)

  outside-set_buffer :
      (line s : Text) (p : TmuxControlParser N)
      → handle_outside number line (record p { buffer = s })
        ≡ set_buffer s (handle_outside number line p)
  unfolding handle_outside
  outside-set_buffer line s p =
      go (starts_with (codes "%") line) (text_eq (cut_blank line).0 (codes "%begin"))
    where
      rest : Text
      rest = or_empty (cut_blank line).1

      n : TmuxNotification N
      n = notification number line (cut_blank line).0 rest

      go :
          (a b : Bool)
          → (if not a
              then (record p { buffer = s }, [])
              else if b
              then (open_begin number rest (record p { buffer = s }), [])
              else (record p { buffer = s }, n ∷ []))
            ≡ set_buffer s (
                if not a
                then (p, [])
                else if b
                then (open_begin number rest p, [])
                else (p, n ∷ []))
      go false b = refl
      go true true = refl
      go true false = refl

  line-set_buffer :
      (line s : Text) (p : TmuxControlParser N)
      → handle_line number line (record p { buffer = s }) ≡ set_buffer s (handle_line number line p)
  unfolding handle_inside
  line-set_buffer line s p = go p.open_reply
    where
      go :
          (o : Option (OpenReply N))
          → handle_from number o line (record p { buffer = s })
            ≡ set_buffer s (handle_from number o line p)
      go none = outside-set_buffer line s p
      go (some b) = elim (Bool-cases (is_end line)) [
        | inl ends ↦ rw ends refl
        | inr within ↦ elim (Bool-cases (is_exit line)) [
          | inl exits ↦
              rw (within, exits)
                (ap (after_close number (reply b.num true b.lines))
                  (outside-set_buffer line s (record p { open_reply = none })))
          | inr body ↦ rw (within, body) refl
        ]
      ]

  lines-set_buffer :
      (ls : List Text) (s : Text) (p : TmuxControlParser N)
      → handle_lines number ls (record p { buffer = s }) ≡ set_buffer s (handle_lines number ls p)
  unfolding handle_lines
  lines-set_buffer [] s p = refl
  lines-set_buffer (x ∷ ls) s p =
      let first : Handled = handle_line number x p in
      ap (λ h. after h.1 (handle_lines number ls h.0)) (line-set_buffer x s p)
      ∙ ap (after first.1) (lines-set_buffer ls s first.0)

  -- What `feed` does with the buffered text and the chunk, without the stripping.
  abbrev framed : Text → TmuxControlParser N → Handled
  framed s p =
      handle_lines number (lines_of (complete_lines s).0)
        (record p { buffer = (complete_lines s).1 })

  framed_lem :
      (s : Text) (p : TmuxControlParser N)
      → framed s p
        ≡ set_buffer (complete_lines s).1 (handle_lines number (lines_of (complete_lines s).0) p)
  framed_lem s p = lines-set_buffer (lines_of (complete_lines s).0) (complete_lines s).1 p

  feed-framed :
      (text : Text) (p : TmuxControlParser N)
      → IsUnwrapped (p.buffer ++ text)
      → feed number text p ≡ framed (p.buffer ++ text) p
  unfolding feed
  feed-framed text p h = ap (λ s. framed s p) (strip-IsUnwrapped (p.buffer ++ text) h)

  framed-append :
      (s b : Text) (p : TmuxControlParser N)
      → framed (s ++ b) p
        ≡ after (framed s p).1 (framed ((framed s p).0.buffer ++ b) (framed s p).0)
  framed-append s b p =
      framed_lem (s ++ b) p
      ∙ ap {B = Handled} (λ r. set_buffer r.1 (handle_lines number (lines_of r.0) p))
          (complete_lines-append s b)
      ∙ ap {B = Handled} (λ ls. set_buffer r2 (handle_lines number ls p))
          (map-append (complete_lines s).0 (complete_lines (r1 ++ b)).0)
      ∙ ap (set_buffer r2) (handle_lines-append l1 l2 p)
      ∙ sym (
          ap (λ h. after h.1 (framed (h.0.buffer ++ b) h.0)) (framed_lem s p)
          ∙ ap (after (handle_lines number l1 p).1)
              (framed_lem (r1 ++ b) q ∙ ap (set_buffer r2) (lines-set_buffer l2 r1 u)))
    where
      r1 : Text
      r1 = (complete_lines s).1

      l1 : List Text
      l1 = lines_of (complete_lines s).0

      r2 : Text
      r2 = (complete_lines (r1 ++ b)).1

      l2 : List Text
      l2 = lines_of (complete_lines (r1 ++ b)).0

      u : TmuxControlParser N
      u = (handle_lines number l1 p).0

      q : TmuxControlParser N
      q = record u { buffer = r1 }

  framed_buffer :
      (s : Text) (p : TmuxControlParser N) → (framed s p).0.buffer ≡ (complete_lines s).1
  framed_buffer s p = ap {B = Text} (λ h. h.0.buffer) (framed_lem s p)

  -- Two chunks, one after the other, give the notifications and leave the parser that the chunks in one do,
  -- wherever the cut is. The buffered text and the chunks, put together, hold neither the sequence that tmux
  -- wraps the stream in on attaching nor the one that ends it on detaching; other escape sequences may be
  -- in them.
  pub feed-append :
      (a b : Text) (p : TmuxControlParser N)
      → IsUnwrapped (p.buffer ++ a ++ b)
      → feed number (a ++ b) p ≡ after (feed number a p).1 (feed number b (feed number a p).0)
  feed-append a b p h =
      feed-framed (a ++ b) p (subst IsUnwrapped (append_assoc p.buffer a b) h)
      ∙ ap (λ s. framed s p) (sym (append_assoc p.buffer a b))
      ∙ framed-append (p.buffer ++ a) b p
      ∙ sym (
          ap (λ h. after h.1 (feed number b h.0))
            (feed-framed a p (front-IsUnwrapped (p.buffer ++ a) b h))
          ∙ ap (after mid.1) (feed-framed b mid.0 left))
    where
      mid : Handled
      mid = framed (p.buffer ++ a) p

      left : IsUnwrapped (mid.0.buffer ++ b)
      left =
          let (x, e) =
            front_of (p.buffer ++ a) (complete_lines (p.buffer ++ a))
              (complete_lines-IsEnd (p.buffer ++ a)) in
          subst (λ t. IsUnwrapped (t ++ b)) (sym (framed_buffer (p.buffer ++ a) p))
            (back-IsUnwrapped x ((complete_lines (p.buffer ++ a)).1 ++ b) (
              subst IsUnwrapped
                (ap (λ t. t ++ b) e ∙ append_assoc x (complete_lines (p.buffer ++ a)).1 b) h))
