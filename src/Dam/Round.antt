-- ===== src/Dam/Round.antt =====
-- One round of the loops of `loadavg_dam` and `throttle_group`, with what the round sees: the load,
-- the word it reads first, the clock, the listed units, and the word at the compare-exchange.
mod Tests
use systemd_cron.Base.Int.{pos}
use systemd_cron.Base.{
  ℕ, List, [], ◌∷◌, ◌≡◌, refl, Bool, true, false, not, if◌then◌else◌, Bytes, arith, Bool-cases, inl,
  inr, ap, subst, ◌∙◌, sym, all, ◌||◌,
}
use systemd_cron.Dam.Bundle.{Bundle, make_bundle, same_bundle}
use systemd_cron.Dam.Group.{ListedUnit, Verdict, admit, sleep, verdict, zero_time}
use systemd_cron.Dam.Group.Quiet.{admits, admits-verdict, is_of_group, is_quiet}
use systemd_cron.Dam.Race.{has_passed, World, Move, Pc, loaded, ready, gone, read_clock, won}
use systemd_cron.Vore.Timespec.{Timespec, at}

-- The round sleeps, or lets its job go with this word.
pub data Outcome : Type 0 where
  naps : Timespec → Outcome
  lets_go : Bundle → Outcome

abbrev pub seconds : ℕ → Timespec
seconds s = record { tv_sec = pos s; tv_nsec = 0 }

unfoldable pub exchange : ℕ → ℕ → Bundle → ℕ → Bundle → Outcome
exchange freq pid last now shm =
    if same_bundle shm last then lets_go (make_bundle pid now) else naps (seconds freq)

unfoldable pub dam_round : ℕ → Bool → Bundle → ℕ → Bundle → Outcome
unfolding has_passed exchange
dam_round pid load_low last now shm =
    if not (has_passed 30 last now)
    then naps (seconds 5)
    else if not load_low
    then naps (seconds 5)
    else exchange 5 pid last now shm

-- `freq` is 5, or 30 with a target for the load.
unfoldable pub group_round :
    ℕ → ℕ → Bytes → Bytes → Bytes → Bool → Bundle → ℕ → List ListedUnit → Bundle → Outcome
unfolding has_passed verdict exchange
group_round freq pid self group self_object load_low last now units shm =
    if not load_low
    then naps (seconds freq)
    else if not (has_passed freq last now)
    then naps (seconds freq)
    else elim (verdict (at now) self group self_object units zero_time) [
      | sleep t ↦ naps t
      | admit ↦ exchange freq pid last now shm
    ]

exchange-cases :
    (freq pid : ℕ) (last b : Bundle) (now : ℕ) (shm : Bundle)
    → exchange freq pid last now shm ≡ lets_go b
    → (same_bundle shm last ≡ true) × (make_bundle pid now ≡ b)
unfolding exchange
exchange-cases freq pid last b now shm e = ground (arith, e)

-- The move of a process that wins, on any word with these bits.
winning :
    (freq pid : ℕ) (last b : Bundle) (now : ℕ) (shm : Bundle)
    → exchange freq pid last now shm ≡ lets_go b
    → (v : World) → v.shm ≡ shm
    → Move freq pid v (ready last now) (record v { shm = b; wins = now ∷ v.wins }) gone
winning freq pid last b now shm e v same =
    let (bits, word) = exchange-cases freq pid last b now shm e in
    subst (λ c. Move freq pid v (ready last now) (record v { shm = c; wins = now ∷ v.wins }) gone)
      word (won (ap (λ s. same_bundle s last) same ∙ bits))

group_round-cases :
    (freq pid : ℕ) (self group self_object : Bytes) (load_low : Bool) (last b : Bundle) (now : ℕ)
    (units : List ListedUnit) (shm : Bundle)
    → group_round freq pid self group self_object load_low last now units shm ≡ lets_go b
    → (has_passed freq last now ≡ true)
      × (admits (verdict (at now) self group self_object units zero_time) ≡ true)
      × (exchange freq pid last now shm ≡ lets_go b)
unfolding group_round
group_round-cases freq pid self group self_object load_low last b now units shm e =
    ground (arith, e)

-- A round of the throttle that lets its job go is two moves of the race: with the clock at `now` it
-- goes on from the word that it has read, and at the compare-exchange it wins, on whatever word has
-- come to be there with the same bits. Every unit that it recognises as of its group is quiet then.
pub group_round-Move :
    (freq pid : ℕ) (self group self_object : Bytes) (load_low : Bool) (last b : Bundle)
    (units : List ListedUnit) (shm : Bundle) (w : World)
    → group_round freq pid self group self_object load_low last w.clock units shm ≡ lets_go b
    → Move freq pid w (loaded last) w (ready last w.clock)
      × ((v : World)
          → v.shm ≡ shm
          → Move freq pid v
              (ready last w.clock)
              (record v { shm = b; wins = w.clock ∷ v.wins })
              gone)
      × (all (λ u. not (is_of_group self group self_object u) || is_quiet w.clock u) units ≡ true)
group_round-Move freq pid self group self_object load_low last b units shm w e =
    let (passed, free, exchanged) =
      group_round-cases freq pid self group self_object load_low last b w.clock units shm e in
    (
      read_clock passed,
      winning freq pid last b w.clock shm exchanged,
      sym (admits-verdict w.clock self group self_object units) ∙ free,
    )
