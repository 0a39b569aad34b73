-- ===== src/Dam/Replies/Order.antt =====
-- What the round knows of a unit, whatever replies about it have come in.
use systemd_cron.Base.{
  ℕ, ◌≡◌, refl, sym, ap, ◌∙◌, subst, inl, inr, Option, none, some, Bool, true, false, if◌then◌else◌,
  Bytes, Bool-cases,
}
use systemd_cron.Dam.Group.{
  ListedUnit, zero_time, any_ours, is_running, Settled, wins, rests, settle_times, settle,
}
use systemd_cron.Dam.Replies.{
  Stage, asked, timing, answered, Request, Reply, on_exec_start_pre, weigh, on_start, on_exit,
  Answer, names, starts, exits,
}
use systemd_cron.Vore.Timespec.{Timespec}

module _ (now : Timespec) (self group : Bytes) where
  -- What the round knows of a unit, at each stage.
  abbrev pub Known : Stage → Request → Type 0
  Known asked q = (q.start ≡ none) × (q.exit ≡ none) × (q.result ≡ zero_time)
  Known (timing a b) q =
      (any_ours self group q.unit.exec_start_pre ≡ true)
      × (is_running q.unit ≡ false)
      × (q.start ≡ (if a then none else q.unit.exec_main_start))
      × (q.exit ≡ (if b then none else q.unit.exec_main_exit))
  Known answered q = settle now self group q.unit ≡ rests q.result

  pub record Fair (q : Request) (a : Reply) : Type 0 where
    pub unit : a.0.unit ≡ q.unit
    pub known : a.1 ≡ false → Known a.0.stage a.0
    pub won : a.1 ≡ true → settle now self group q.unit ≡ wins

  settle_other :
      (u : ListedUnit)
      → any_ours self group u.exec_start_pre ≡ false
      → settle now self group u ≡ rests zero_time
  unfolding settle
  settle_other u e = rw e refl

  settle_running :
      (u : ListedUnit)
      → any_ours self group u.exec_start_pre ≡ true
      → is_running u ≡ true
      → settle now self group u ≡ wins
  unfolding settle
  settle_running u e r = rw (e, r) refl

  settle_ended :
      (u : ListedUnit)
      → any_ours self group u.exec_start_pre ≡ true
      → is_running u ≡ false
      → settle now self group u ≡ settle_times now u.exec_main_start u.exec_main_exit
  unfolding settle
  settle_ended u e r = rw (e, r) refl

  half_timed : (start : Option ℕ) → settle_times now start none ≡ rests zero_time
  unfolding settle_times
  half_timed none = refl
  half_timed (some t) = refl

  on_exec_start_pre-Fair :
      (q : Request) → Known asked q → Fair q (on_exec_start_pre now self group q)
  unfolding on_exec_start_pre
  on_exec_start_pre-Fair q k = elim (Bool-cases (any_ours self group q.unit.exec_start_pre)) [
    | inr e ↦
        rw (e, on_exec_start_pre)
          (record {
            unit = refl;
            known = λ h. settle_other q.unit e ∙ ap rests (sym k.2);
            won = λ h. cc;
          })
    | inl e ↦ elim (Bool-cases (is_running q.unit)) [
      | inl r ↦
          rw (e, r, on_exec_start_pre)
            (record { unit = refl; known = λ h. cc; won = λ h. settle_running q.unit e r })
      | inr r ↦
          rw (e, r, on_exec_start_pre)
            (record { unit = refl; known = λ h. (e, r, k.0, k.1); won = λ h. cc })
    ]
  ]

  -- A request whose times come to this.
  weigh-Fair :
      (u q : Request) (s : Settled)
      → settle_times now q.start q.exit ≡ s
      → q.unit ≡ u.unit
      → ((t : Timespec) → s ≡ rests t → Known q.stage (record q { result = t }))
      → (s ≡ wins → settle now self group u.unit ≡ wins)
      → Fair u (weigh now self group q)
  unfolding weigh
  weigh-Fair u q wins e same known won =
      rw (e, weigh) (record { unit = same; known = λ h. cc; won = λ h. won refl })
  weigh-Fair u q (rests t) e same known won =
      rw (e, weigh) (record { unit = same; known = λ h. known t refl; won = λ h. cc })

  on_start-Fair :
      (q : Request) (exit_due : Bool)
      → Known (timing true exit_due) q
      → Fair q (on_start now self group exit_due q)
  unfolding on_start
  on_start-Fair q true (ours, ended, start, exit) =
      weigh-Fair q (record q { stage = timing false true; start = q.unit.exec_main_start })
        (rests zero_time)
        (ap (settle_times now q.unit.exec_main_start) exit ∙ half_timed q.unit.exec_main_start) refl
        (λ t e. (ours, ended, refl, exit)) (λ e. cc)
  on_start-Fair q false (ours, ended, start, exit) =
      let whole = ap (settle_times now q.unit.exec_main_start) exit in
      weigh-Fair q (record q { stage = answered; start = q.unit.exec_main_start })
        (settle_times now q.unit.exec_main_start q.exit) refl refl
        (λ t e. settle_ended q.unit ours ended ∙ sym whole ∙ e)
        (λ e. settle_ended q.unit ours ended ∙ sym whole ∙ e)

  on_exit-Fair :
      (q : Request) (start_due : Bool)
      → Known (timing start_due true) q
      → Fair q (on_exit now self group start_due q)
  unfolding on_exit
  on_exit-Fair q true (ours, ended, start, exit) =
      weigh-Fair q (record q { stage = timing true false; exit = q.unit.exec_main_exit })
        (rests zero_time) (ap (λ s. settle_times now s q.unit.exec_main_exit) start) refl
        (λ t e. (ours, ended, start, refl)) (λ e. cc)
  on_exit-Fair q false (ours, ended, start, exit) =
      let whole = ap (λ s. settle_times now s q.unit.exec_main_exit) start in
      weigh-Fair q (record q { stage = answered; exit = q.unit.exec_main_exit })
        (settle_times now q.start q.unit.exec_main_exit) refl refl
        (λ t e. settle_ended q.unit ours ended ∙ sym whole ∙ e)
        (λ e. settle_ended q.unit ours ended ∙ sym whole ∙ e)

  pub Answer-Fair :
      (q : Request) (a : Reply) → Answer now self group q a → Known q.stage q → Fair q a
  Answer-Fair q a (names e) k = on_exec_start_pre-Fair q (subst (λ s. Known s q) e k)
  Answer-Fair q a (starts due e) k = on_start-Fair q due (subst (λ s. Known s q) e k)
  Answer-Fair q a (exits due e) k = on_exit-Fair q due (subst (λ s. Known s q) e k)
