-- ===== src/Util/Base64/Pieces.antt =====
-- A text may be fed in pieces.
use systemd_cron.Base.{
  ℕ, suc, ◌-◌, ◌*◌, ◌<◌, ◌≡◌, refl, sym, ap, ◌∙◌, [], ◌∷◌, ◌++◌, arith, ltb, if◌then◌else◌, Bytes,
  length, lt→ltb, Bool-cases, inl, inr,
}
use systemd_cron.Util.Base64.{Encoder, emit, load, feed, feed_view, enough}
use systemd_cron.Util.Base64.Groups.{feed-load, feed-emit, feed_end}

-- What the loop does with one byte.
absorb : Encoder → ℕ → Encoder
absorb e c = let e' = emit (load e c) in if ltb e'.accsz 6 then e' else emit e'

absorb_all : Encoder → Bytes → Encoder
absorb_all e [] = e
absorb_all e (c ∷ s) = absorb_all (absorb e c) s

absorb-lt : (e : Encoder) (c : ℕ) → e.accsz < 6 → (absorb e c).accsz < 6
unfolding absorb emit load
absorb-lt e c h = ground arith

absorb_all-lt : (s : Bytes) (e : Encoder) → e.accsz < 6 → (absorb_all e s).accsz < 6
unfolding absorb_all
absorb_all-lt [] e h = h
absorb_all-lt (c ∷ s) e h = absorb_all-lt s (absorb e c) (absorb-lt e c h)

absorb_all-append :
    (s t : Bytes) (e : Encoder) → absorb_all e (s ++ t) ≡ absorb_all (absorb_all e s) t
unfolding absorb_all
absorb_all-append [] t e = refl
absorb_all-append (c ∷ s) t e = absorb_all-append s t (absorb e c)

-- One byte takes a round, or two.
feed_byte :
    (f : ℕ) (e : Encoder) (c : ℕ) (s : Bytes)
    → e.accsz < 6
    → feed (suc (suc f)) e (c ∷ s)
      ≡ feed (if ltb (emit (load e c)).accsz 6 then suc f else f) (absorb e c) s
unfolding absorb
feed_byte f e c s h = elim (Bool-cases (ltb (emit (load e c)).accsz 6)) [
  | inl stays ↦ rw stays (feed-load (suc f) e c s (lt→ltb e.accsz 6 h))
  | inr full ↦
      rw full (feed-load (suc f) e c s (lt→ltb e.accsz 6 h) ∙ feed-emit f (emit (load e c)) s full)
]

feed-absorb_all :
    (s : Bytes) (f : ℕ) (e : Encoder) → e.accsz < 6 → 2 * length s < f → feed f e s ≡ absorb_all e s
unfolding absorb_all
feed-absorb_all [] f e h k =
    let fuel : f ≡ suc (f - 1) = omega arith in
    ap (λ n. feed n e []) fuel ∙ feed_end (f - 1) e (lt→ltb e.accsz 6 h)
feed-absorb_all (c ∷ s) f e h k =
    let fuel : f ≡ suc (suc (f - 2)) = omega arith in
    let left = if ltb (emit (load e c)).accsz 6 then suc (f - 2) else f - 2 in
    ap (λ n. feed n e (c ∷ s)) fuel
    ∙ feed_byte (f - 2) e c s h
    ∙ feed-absorb_all s left (absorb e c) (absorb-lt e c h) (ground arith)

feed_view-absorb_all : (s : Bytes) (e : Encoder) → e.accsz < 6 → feed_view e s ≡ absorb_all e s
unfolding feed_view
feed_view-absorb_all s e h = feed-absorb_all s (enough s) e h (omega arith)

-- Two texts fed one after the other give the state that the joined text gives.
pub feed_view-append :
    (s t : Bytes) (e : Encoder) → e.accsz < 6 → feed_view (feed_view e s) t ≡ feed_view e (s ++ t)
feed_view-append s t e h =
    ap (λ a. feed_view a t) (feed_view-absorb_all s e h)
    ∙ feed_view-absorb_all t (absorb_all e s) (absorb_all-lt s e h)
    ∙ sym (absorb_all-append s t e)
    ∙ sym (feed_view-absorb_all (s ++ t) e h)

-- Fewer than six bits are left between two texts.
pub feed_view-lt : (s : Bytes) (e : Encoder) → e.accsz < 6 → (feed_view e s).accsz < 6
feed_view-lt s e h = rw (feed_view-absorb_all s e h) (absorb_all-lt s e h)

pub feed_view-nil : (e : Encoder) → e.accsz < 6 → feed_view e [] ≡ e
unfolding absorb_all
feed_view-nil e h = feed_view-absorb_all [] e h
