-- ===== src/Util/Base64/Groups.antt =====
-- The encoder against the description by groups of three bytes, and feeding in pieces.
use systemd_cron.Base.{
  ℕ, suc, ◌+◌, ◌-◌, ◌*◌, ◌/◌, ◌%◌, ◌^◌, ◌<◌, ◌≡◌, refl, sym, ap, ◌∙◌, [], ◌∷◌, ◌++◌, Bool, true,
  false, arith, ltb, Bytes, length, append_assoc, append-nil, all,
}
use systemd_cron.Util.Base64.{Encoder, alphabet_at, emit, load, feed, finish, encode, enough}

abbrev pub is_byte : ℕ → Bool
is_byte c = ltb c 256

-- Base64 by groups: three bytes are four characters of six bits, and a short last group is padded.
abbrev pub groups : Bytes → Bytes
groups [] = []
groups (a ∷ []) = alphabet_at (a / 4) ∷ alphabet_at (a % 4 * 16) ∷ b'=' ∷ b'=' ∷ []
groups (a ∷ b ∷ []) =
    alphabet_at (a / 4) ∷ alphabet_at (a % 4 * 16 + b / 16) ∷ alphabet_at (b % 16 * 4) ∷ b'=' ∷ []
groups (a ∷ b ∷ c ∷ s) =
    alphabet_at (a / 4)
    ∷ alphabet_at (a % 4 * 16 + b / 16)
    ∷ alphabet_at (b % 16 * 4 + c / 64)
    ∷ alphabet_at (c % 64)
    ∷ groups s

-- The accumulator holds `rest` in the top `size` of its 16 bits.
abbrev holding : Bytes → ℕ → ℕ → Encoder
holding out rest size = record { into = out; acc = rest * 2 ^ (16 - size); accsz = size }

after_first :
    (out : Bytes) (a : ℕ)
    → a < 256
    → emit (load (holding out 0 0) a) ≡ holding (out ++ alphabet_at (a / 4) ∷ []) (a % 4) 2
unfolding emit load
after_first out a h = ground arith

after_second :
    (out : Bytes) (r b : ℕ)
    → r < 4
    → b < 256
    → emit (load (holding out r 2) b)
      ≡ holding (out ++ alphabet_at (r * 16 + b / 16) ∷ []) (b % 16) 4
unfolding emit load
after_second out r b k h = ground arith

after_third :
    (out : Bytes) (r c : ℕ)
    → r < 16
    → c < 256
    → emit (load (holding out r 4) c)
      ≡ holding (out ++ alphabet_at (r * 4 + c / 64) ∷ []) (c % 64) 6
unfolding emit load
after_third out r c k h = ground arith

after_fourth :
    (out : Bytes) (r : ℕ)
    → r < 64
    → emit (holding out r 6) ≡ holding (out ++ alphabet_at r ∷ []) 0 0
unfolding emit
after_fourth out r k = ground arith

-- One round, with a byte to load and without.
pub feed-load :
    (f : ℕ) (e : Encoder) (c : ℕ) (s : Bytes)
    → ltb e.accsz 6 ≡ true
    → feed (suc f) e (c ∷ s) ≡ feed f (emit (load e c)) s
unfolding feed
feed-load f e c s h = rw (h, feed)

pub feed-emit :
    (f : ℕ) (e : Encoder) (s : Bytes) → ltb e.accsz 6 ≡ false → feed (suc f) e s ≡ feed f (emit e) s
unfolding feed
feed-emit f e s h = rw (h, feed)

pub feed_end : (f : ℕ) (e : Encoder) → ltb e.accsz 6 ≡ true → feed (suc f) e [] ≡ e
unfolding feed
feed_end f e h = rw (h, feed)

first_round :
    (f : ℕ) (out : Bytes) (a : ℕ) (s : Bytes)
    → a < 256
    → feed (suc f) (holding out 0 0) (a ∷ s)
      ≡ feed f (holding (out ++ alphabet_at (a / 4) ∷ []) (a % 4) 2) s
first_round f out a s h =
    feed-load f (holding out 0 0) a s refl ∙ ap (λ e. feed f e s) (after_first out a h)

second_round :
    (f : ℕ) (out : Bytes) (r b : ℕ) (s : Bytes)
    → r < 4
    → b < 256
    → feed (suc f) (holding out r 2) (b ∷ s)
      ≡ feed f (holding (out ++ alphabet_at (r * 16 + b / 16) ∷ []) (b % 16) 4) s
second_round f out r b s k h =
    feed-load f (holding out r 2) b s refl ∙ ap (λ e. feed f e s) (after_second out r b k h)

third_rounds :
    (f : ℕ) (out : Bytes) (r c : ℕ) (s : Bytes)
    → r < 16
    → c < 256
    → feed (suc (suc f)) (holding out r 4) (c ∷ s)
      ≡ feed f
          (holding ((out ++ alphabet_at (r * 4 + c / 64) ∷ []) ++ alphabet_at (c % 64) ∷ []) 0 0)
          s
third_rounds f out r c s k h =
    feed-load (suc f) (holding out r 4) c s refl
    ∙ ap (λ e. feed (suc f) e s) (after_third out r c k h)
    ∙ feed-emit f (holding (out ++ alphabet_at (r * 4 + c / 64) ∷ []) (c % 64) 6) s refl
    ∙ ap (λ e. feed f e s) (after_fourth _ (c % 64) (omega arith))

-- What `finish` makes of one byte over, and of two.
finish_one :
    (out : Bytes) (r : ℕ)
    → r < 4
    → finish (holding out r 2) ≡ (out ++ alphabet_at (r * 16) ∷ []) ++ b'=' ∷ b'=' ∷ []
unfolding finish
finish_one out r h = let e : r * 2 ^ 14 / 2 ^ 10 ≡ r * 16 = omega arith in rw e refl

finish_two :
    (out : Bytes) (r : ℕ)
    → r < 16
    → finish (holding out r 4) ≡ (out ++ alphabet_at (r * 4) ∷ []) ++ b'=' ∷ []
unfolding finish
finish_two out r h = let e : r * 2 ^ 12 / 2 ^ 10 ≡ r * 4 = omega arith in rw e refl

finish_none : (out : Bytes) → finish (holding out 0 0) ≡ out
unfolding finish
finish_none out = refl

feed-groups :
    (s : Bytes) (f : ℕ) (out : Bytes)
    → all is_byte s ≡ true
    → 2 * length s < f
    → finish (feed f (holding out 0 0) s) ≡ out ++ groups s
feed-groups [] f out h k =
    let e : f ≡ suc (f - 1) = omega arith in
    ap (λ n. finish (feed n (holding out 0 0) [])) e
    ∙ ap finish (feed_end (f - 1) (holding out 0 0) refl)
    ∙ finish_none out
    ∙ sym (append-nil out)
feed-groups (a ∷ []) f out h k =
    let e : f ≡ suc (suc (f - 2)) = omega arith in
    let out₁ = out ++ alphabet_at (a / 4) ∷ [] in
    ap (λ n. finish (feed n (holding out 0 0) (a ∷ []))) e
    ∙ ap finish (first_round (suc (f - 2)) out a [] (ground arith))
    ∙ ap finish (feed_end (f - 2) (holding out₁ (a % 4) 2) refl)
    ∙ finish_one out₁ (a % 4) (omega arith)
    ∙ simp append_assoc
feed-groups (a ∷ b ∷ []) f out h k =
    let e : f ≡ suc (suc (suc (f - 3))) = omega arith in
    let out₁ = out ++ alphabet_at (a / 4) ∷ [] in
    let out₂ = out₁ ++ alphabet_at (a % 4 * 16 + b / 16) ∷ [] in
    ap (λ n. finish (feed n (holding out 0 0) (a ∷ b ∷ []))) e
    ∙ ap finish (first_round (suc (suc (f - 3))) out a (b ∷ []) (ground arith))
    ∙ ap finish (second_round (suc (f - 3)) out₁ (a % 4) b [] (omega arith) (ground arith))
    ∙ ap finish (feed_end (f - 3) (holding out₂ (b % 16) 4) refl)
    ∙ finish_two out₂ (b % 16) (omega arith)
    ∙ simp append_assoc
feed-groups (a ∷ b ∷ c ∷ s) f out h k =
    let e : f ≡ suc (suc (suc (suc (f - 4)))) = omega arith in
    let out₁ = out ++ alphabet_at (a / 4) ∷ [] in
    let out₂ = out₁ ++ alphabet_at (a % 4 * 16 + b / 16) ∷ [] in
    ap (λ n. finish (feed n (holding out 0 0) (a ∷ b ∷ c ∷ s))) e
    ∙ ap finish (first_round (suc (suc (suc (f - 4)))) out a (b ∷ c ∷ s) (ground arith))
    ∙ ap finish
        (second_round (suc (suc (f - 4))) out₁ (a % 4) b (c ∷ s) (omega arith) (ground arith))
    ∙ ap finish (third_rounds (f - 4) out₂ (b % 16) c s (omega arith) (ground arith))
    ∙ feed-groups s (f - 4) _ (ground arith) (omega arith)
    ∙ simp append_assoc

-- The encoder writes the base64 text of any bytes: its fuel is enough, and what stands in the
-- accumulator at the end of the input is padded as the last group asks.
pub encode-groups : (s : Bytes) → all is_byte s ≡ true → encode s ≡ groups s
unfolding encode
encode-groups s h = feed-groups s (enough s) [] h (omega arith)
