-- ===== src/Dam/Replies/Rounds.antt =====
-- The order of the replies does not matter: a round that is over has the verdict of its units.
use systemd_cron.Base.{
  List, [], ◌∷◌, ◌++◌, ◌≡◌, refl, sym, ap, ◌∙◌, subst, inl, inr, Bool, true, false, if◌then◌else◌,
  Bytes, map, keep, all, Bool-cases, arith,
}
use systemd_cron.Dam.Group.{
  ListedUnit, blanking_interval, zero_time, Settled, wins, rests, settle, is_watched, max_time,
  Verdict, admit, sleep, is_zero, verdict,
}
use systemd_cron.Dam.Replies.Order.{Known, Answer-Fair}
use systemd_cron.Dam.Replies.{
  Stage, Request, asked, timing, answered, request, Round, Step, reply, Reach, here, next, asking,
  is_answered, is_over, longest, outcome,
}
use systemd_cron.Vore.Timespec.{Timespec}

abbrev units_of : List Request → List ListedUnit
units_of = map (λ q. q.unit)

units_of-replace :
    (xs ys : List Request) (q k : Request)
    → k.unit ≡ q.unit
    → units_of (xs ++ k ∷ ys) ≡ units_of (xs ++ q ∷ ys)
units_of-replace [] ys q k e = ap (λ u. u ∷ units_of ys) e
units_of-replace (x ∷ xs) ys q k e = ap (λ us. x.unit ∷ us) (units_of-replace xs ys q k e)

units_of-request : (us : List ListedUnit) → units_of (map request us) ≡ us
units_of-request [] = refl
units_of-request (u ∷ us) = ap (λ vs. u ∷ vs) (units_of-request us)

module _ (now : Timespec) (self group : Bytes) where
  abbrev Knows : List Request → Type 0
  Knows [] = Unit
  Knows (q ∷ qs) = Known now self group q.stage q × Knows qs

  Knows-at :
      (xs ys : List Request) (q : Request) → Knows (xs ++ q ∷ ys) → Known now self group q.stage q
  Knows-at [] ys q h = h.0
  Knows-at (x ∷ xs) ys q h = Knows-at xs ys q h.1

  Knows-replace :
      (xs ys : List Request) (q k : Request)
      → Known now self group k.stage k
      → Knows (xs ++ q ∷ ys)
      → Knows (xs ++ k ∷ ys)
  Knows-replace [] ys q k n h = (n, h.1)
  Knows-replace (x ∷ xs) ys q k n h = (h.0, Knows-replace xs ys q k n h.1)

  Knows-request : (us : List ListedUnit) → Knows (map request us)
  Knows-request [] = tt
  Knows-request (u ∷ us) = ((refl, refl, refl), Knows-request us)

  abbrev win_or : Settled → Bool → Bool
  win_or wins b = true
  win_or (rests t) b = b

  -- Does one of the units win?
  abbrev a_win : List ListedUnit → Bool
  a_win [] = false
  a_win (u ∷ us) = win_or (settle now self group u) (a_win us)

  win_or-true : (s : Settled) → win_or s true ≡ true
  win_or-true wins = refl
  win_or-true (rests t) = refl

  a_win-append :
      (xs ys : List Request) (q : Request)
      → settle now self group q.unit ≡ wins
      → a_win (units_of (xs ++ q ∷ ys)) ≡ true
  a_win-append [] ys q e = ap (λ s. win_or s (a_win (units_of ys))) e
  a_win-append (x ∷ xs) ys q e =
      ap (win_or (settle now self group x.unit)) (a_win-append xs ys q e)
      ∙ win_or-true (settle now self group x.unit)

  record Inv (us : List ListedUnit) (r : Round) : Type 0 where
    units : units_of r.requests ≡ us
    knows : r.winner ≡ false → Knows r.requests
    won : r.winner ≡ true → a_win us ≡ true

  Step-Inv : (us : List ListedUnit) {r s : Round} → Step now self group r s → Inv us r → Inv us s
  Step-Inv us {r} (reply xs ys q a e w step) inv =
      let before : Knows (xs ++ q ∷ ys) = subst Knows e (inv.knows w) in
      let fair = Answer-Fair now self group q a step (Knows-at xs ys q before) in
      let listed : units_of (xs ++ q ∷ ys) ≡ us = ap units_of (sym e) ∙ inv.units in
      record {
        units = units_of-replace xs ys q a.0 fair.unit ∙ listed;
        knows = λ h. Knows-replace xs ys q a.0 (fair.known h) before;
        won = λ h. ap a_win (sym listed) ∙ a_win-append xs ys q (fair.won h);
      }

  Reach-Inv : (us : List ListedUnit) {r s : Round} → Reach now self group r s → Inv us r → Inv us s
  Reach-Inv us here inv = inv
  Reach-Inv us (next reach step) inv = Step-Inv us step (Reach-Inv us reach inv)

  -- What one unit makes of the verdict over the others.
  abbrev and_then : Settled → (Timespec → Verdict) → Timespec → Verdict
  and_then wins rest acc = sleep blanking_interval
  and_then (rests t) rest acc = rest (max_time t acc)

  and_then-same :
      (s : Settled) (f g : Timespec → Verdict) (acc : Timespec)
      → ((t : Timespec) → f t ≡ g t)
      → and_then s f acc ≡ and_then s g acc
  and_then-same wins f g acc h = refl
  and_then-same (rests t) f g acc h = h (max_time t acc)

  and_then-win :
      (s : Settled) (b : Bool) (f : Timespec → Verdict) (acc : Timespec)
      → win_or s b ≡ true
      → (b ≡ true → (t : Timespec) → f t ≡ sleep blanking_interval)
      → and_then s f acc ≡ sleep blanking_interval
  and_then-win wins b f acc w h = refl
  and_then-win (rests t) b f acc w h = h w (max_time t acc)

  -- The verdict over units that are all watched.
  decide : List ListedUnit → Timespec → Verdict
  decide [] acc = if is_zero acc then admit else sleep acc
  decide (u ∷ us) acc = and_then (settle now self group u) (decide us) acc

  verdict-unit :
      (self_object : Bytes) (u : ListedUnit) (us : List ListedUnit) (acc : Timespec)
      → is_watched self_object u ≡ true
      → verdict now self group self_object (u ∷ us) acc
        ≡ and_then (settle now self group u) (verdict now self group self_object us) acc
  unfolding verdict
  verdict-unit self_object u us acc e = rw e (go (settle now self group u))
    where
      go :
          (s : Settled)
          → (elim s [
            | wins ↦ sleep blanking_interval
            | rests t ↦ verdict now self group self_object us (max_time t acc)
          ])
            ≡ and_then s (verdict now self group self_object us) acc
      go wins = refl
      go (rests t) = refl

  decide-keep :
      (self_object : Bytes) (us : List ListedUnit) (acc : Timespec)
      → verdict now self group self_object us acc ≡ decide (keep (is_watched self_object) us) acc
  unfolding verdict decide
  decide-keep self_object [] acc = refl
  decide-keep self_object (u ∷ us) acc = elim (Bool-cases (is_watched self_object u)) [
    | inr e ↦ rw e (decide-keep self_object us acc)
    | inl e ↦
        verdict-unit self_object u us acc e
        ∙ and_then-same (settle now self group u) _ _ acc (decide-keep self_object us)
        ∙ rw e refl
  ]

  decide-win :
      (us : List ListedUnit) (acc : Timespec)
      → a_win us ≡ true
      → decide us acc ≡ sleep blanking_interval
  unfolding decide
  decide-win [] acc h = cc
  decide-win (u ∷ us) acc h =
      and_then-win (settle now self group u) (a_win us) (decide us) acc h (λ w t. decide-win us t w)

  answer_of :
      (stage : Stage) (q : Request)
      → (elim stage [ asked ↦ false | timing a b ↦ false | answered ↦ true ]) ≡ true
      → Known now self group stage q
      → settle now self group q.unit ≡ rests q.result
  answer_of asked q h k = cc
  answer_of (timing a b) q h k = cc
  answer_of answered q h k = k

  decide-answered :
      (qs : List Request) (acc : Timespec)
      → Knows qs
      → all is_answered qs ≡ true
      → decide (units_of qs) acc
        ≡ (if is_zero (longest qs acc) then admit else sleep (longest qs acc))
  unfolding decide longest
  decide-answered [] acc k h = refl
  decide-answered (q ∷ qs) acc k h =
      ap (λ s. and_then s (decide (units_of qs)) acc) (answer_of q.stage q (ground arith) k.0)
      ∙ decide-answered qs (max_time q.result acc) k.1 (ground arith)

  outcome-decide :
      (us : List ListedUnit) (r : Round)
      → Inv us r
      → is_over r ≡ true
      → outcome r ≡ decide us zero_time
  unfolding outcome
  outcome-decide us r inv over = elim (Bool-cases r.winner) [
    | inl w ↦ rw w (sym (decide-win us zero_time (inv.won w)))
    | inr w ↦ rw w (
        sym (decide-answered r.requests zero_time (inv.knows w) (ground arith))
        ∙ ap (λ vs. decide vs zero_time) inv.units)
  ]

  asking-Inv :
      (self_object : Bytes) (us : List ListedUnit)
      → Inv (keep (is_watched self_object) us) (asking self_object us)
  unfolding asking
  asking-Inv self_object us = record {
    units = units_of-request (keep (is_watched self_object) us);
    knows = λ h. Knows-request (keep (is_watched self_object) us);
    won = λ h. cc;
  }

  -- However the replies about the listed units interleave, once the round is over, by a unit that
  -- wins or with no reply due, it comes to the verdict of those units. A unit whose list of commands
  -- is not read to its end, or to a throttle of the group, counts as none of the group in both.
  pub outcome-verdict :
      (self_object : Bytes) (us : List ListedUnit) (r : Round)
      → Reach now self group (asking self_object us) r
      → is_over r ≡ true
      → outcome r ≡ verdict now self group self_object us zero_time
  outcome-verdict self_object us r reach over =
      outcome-decide (keep (is_watched self_object) us) r
        (Reach-Inv (keep (is_watched self_object) us) reach (asking-Inv self_object us)) over
      ∙ sym (decide-keep self_object us zero_time)
