-- ===== src/SdMmc/StartupGeometry.antt =====
-- What `mmc_startup` of MmcHostOp.c establishes for reading: the geometry that `mmc_bread` relies on.
use nintendo_switch_pkg.Prelude.{
  ℕ, ◌+◌, ◌*◌, ◌/◌, ◌^◌, ◌≤◌, ◌<◌, ◌≡◌, refl, sym, ap, inl, inr, true, false, Option, some, arith,
  ◌==◌, if◌then◌else◌, ◌∙◌, Bool-cases,
}
use nintendo_switch_pkg.Prelude.Assert.{◌>>◌, assert, >>=-eq-some}
use nintendo_switch_pkg.SdMmc.{Cmd, Data, Outcome, Host, Ret, Mmc, BlkDesc}
use nintendo_switch_pkg.SdMmc.Command.{mmc_set_capacity, capacity_of}
use nintendo_switch_pkg.SdMmc.Card.{Geometry}
use nintendo_switch_pkg.SdMmc.Ident.{Driver, with_host, done, send, ok_then, mmc_set_clock}
use nintendo_switch_pkg.SdMmc.Startup.{
  csd_capacity, csd_size, csd_read_bl, at_most_512, keep_csd, keep_rca, describe, read_csd, set_dsr,
  select_card, set_capacity, set_up_sd, finish_sd, start_card, mmc_startup,
}
use nintendo_switch_pkg.SdMmc.CsdBounds.{IsCsd, csd_block_len, csd_capacity-high, csd_capacity-le}
use nintendo_switch_pkg.SdMmc.IdentKeeps.{Kept, set_up_sd-Keeps}

module _ (h : Host) where
  -- A call that succeeds got past its command.
  send-sent :
      (c : Cmd) (d : Option Data) (st : Driver h.State)
      (next : Outcome h.State → Driver h.State → Ret (Driver h.State))
      → (send h c d st next).value ≡ 0
      → send h c d st next
        ≡ next (h.send_cmd c d st.sd.host) (with_host (h.send_cmd c d st.sd.host).state st)
  unfolding send
  send-sent c d st next ok = ground arith

  ok_then-done :
      (r : Ret (Driver h.State)) (next : Driver h.State → Ret (Driver h.State))
      → (ok_then h r next).value ≡ 0
      → ok_then h r next ≡ next r.state
  unfolding ok_then
  ok_then-done r next ok = ground arith

  -- What the first three commands leave: the CSD's fields over a driver that differs in `rca` only.
  record Addressed (st named : Driver h.State) : Type 0 where
    ddr_mode : named.sd.mmc.ddr_mode ≡ st.sd.mmc.ddr_mode
    b_max : named.sd.mmc.b_max ≡ st.sd.mmc.b_max
    blk : named.sd.blk ≡ st.sd.blk

  abbrev HasCsd : Driver h.State → Driver h.State → Type 0
  HasCsd st st' =
      (named : Driver h.State) × (w_0 : ℕ) × (w_1 : ℕ) × (w_2 : ℕ) × (w_3 : ℕ) × (st'
        ≡ keep_csd w_0 w_1 w_2 w_3 named)
      × Addressed st named

  read_csd-HasCsd :
      (st : Driver h.State) → (read_csd h st).value ≡ 0 → HasCsd st (read_csd h st).state
  unfolding read_csd keep_rca
  read_csd-HasCsd st ok =
      let first = send-sent _ _ st _ ok in
      let ok' = rw first at ok in
      let second = send-sent _ _ _ _ ok' in
      let ok'' = rw second at ok' in
      let third = send-sent _ _ _ _ ok'' in
      (
        _,
        _,
        _,
        _,
        _,
        ap (λ (r : Ret (Driver h.State)). r.state) (first ∙ second ∙ third),
        record { ddr_mode = refl; b_max = refl; blk = refl },
      )

  finish_sd-describe :
      (scr status ssr : ℕ) (st : Driver h.State)
      → (finish_sd h scr status ssr st).value ≡ 0
      → (st' : Driver h.State) × Kept st st'
        × (finish_sd h scr status ssr st ≡ done 0 (describe st'))
  unfolding finish_sd mmc_set_clock
  finish_sd-describe scr status ssr st ok =
      let k = (set_up_sd-Keeps h scr status ssr st).kept in
      (
        mmc_set_clock h (set_up_sd h scr status ssr st).state.id.tran_speed
            (set_up_sd h scr status ssr st).state,
        record { mmc = k.mmc; blk = k.blk; csd_1 = k.csd_1; csd_2 = k.csd_2 },
        ok_then-done (set_up_sd h scr status ssr st) _ ok,
      )

  start_card-finish :
      (scr status ssr : ℕ) (st : Driver h.State) (out : Ret (Driver h.State))
      → start_card h scr status ssr st ≡ some out
      → out.value ≡ 0
      → ((set_capacity h (select_card h (set_dsr h st))).value ≡ 0)
        × (out ≡ finish_sd h scr status ssr (set_capacity h (select_card h (set_dsr h st))).state)
  unfolding start_card
  start_card-finish scr status ssr st out e ok = ground arith

  -- `hwpart` is 0, so the capacity is that of the user area.
  set_capacity-user :
      (st : Driver h.State)
      → st.sd.blk.hwpart ≡ 0
      → (set_capacity h (select_card h (set_dsr h st))).state.sd.mmc
        ≡ record (st.sd.mmc) { part_config = 0xff; capacity = st.sd.mmc.capacity_user }
  unfolding set_capacity select_card set_dsr mmc_set_capacity capacity_of
  set_capacity-user st user = ground arith

  set_capacity-csd :
      (st : Driver h.State)
      → let st' = (set_capacity h (select_card h (set_dsr h st))).state in
        (st'.id.csd_1 ≡ st.id.csd_1) × (st'.id.csd_2 ≡ st.id.csd_2)
  unfolding set_capacity select_card set_dsr mmc_set_capacity
  set_capacity-csd st = ground arith

  mmc_startup-parts :
      (scr status ssr : ℕ) (st : Driver h.State) (r : Ret (Driver h.State))
      → mmc_startup h scr status ssr st ≡ some r
      → (r.value ≡ 0)
        × ((read_csd h st).value ≡ 0)
        × (start_card h scr status ssr (read_csd h st).state ≡ some r)
  unfolding mmc_startup
  mmc_startup-parts scr status ssr st r e =
      let (out, reached, passed) =
        >>=-eq-some
          (if (read_csd h st).value == 0
            then start_card h scr status ssr (read_csd h st).state
            else some (read_csd h st))
          (λ out. assert (out.value == 0) >> some out) e in
      elim (Bool-cases (out.value == 0)) [
        | inl fine ↦ let same : out ≡ r = ground (arith, passed) in ground (arith, reached, same)
        | inr failed ↦ absurd (ground (arith, passed))
      ]

  -- The geometry, from the fields of `struct mmc` and of the block device.
  Geometry-fields :
      (mmc : Mmc) (blk : BlkDesc) (csd_1 csd_2 : ℕ)
      → mmc.ddr_mode ≡ false
      → 1 ≤ mmc.b_max
      → mmc.b_max < 2 ^ 32
      → mmc.read_bl_len ≡ 512
      → blk.lba ≡ csd_capacity mmc.high_capacity csd_1 csd_2 / 512
      → IsCsd mmc.high_capacity csd_1 csd_2
      → Geometry mmc blk
  Geometry-fields mmc blk csd_1 csd_2 single pos fits len lba v =
      elim (Bool-cases mmc.high_capacity) [
        | inl high ↦
            let v' : IsCsd true csd_1 csd_2 = rw (← high) v in
            let cap : csd_capacity mmc.high_capacity csd_1 csd_2
                ≡ (csd_size true csd_1 csd_2 + 1) * 2 ^ 19 =
              rw high (csd_capacity-high csd_1 csd_2 v') in
            record {
              single_rate = single;
              block_len_pos = omega arith;
              block_len_max = omega arith;
              b_max_pos = pos;
              b_max_fits = fits;
              blocks_fit = omega (arith, v'.high_size refl);
              bytes_fit = inl (high, len);
            }
        | inr standard ↦
            let v' : IsCsd false csd_1 csd_2 = rw (← standard) v in
            let cap : csd_capacity mmc.high_capacity csd_1 csd_2 ≤ 2 ^ 32 =
              rw standard (csd_capacity-le csd_1 csd_2 v') in
            record {
              single_rate = single;
              block_len_pos = omega arith;
              block_len_max = omega arith;
              b_max_pos = pos;
              b_max_fits = fits;
              blocks_fit = omega arith;
              bytes_fit = inr (standard, rw len (omega arith));
            }
      ]

  -- The block device that reading takes: 512 bytes a block, as many blocks as the CSD's capacity has.
  abbrev pub Started : Driver h.State → Type 0
  Started st =
      let mmc = st.sd.mmc in
      Geometry mmc st.sd.blk
      × (mmc.read_bl_len ≡ 512)
      × (st.sd.blk.hwpart ≡ 0)
      × (st.sd.blk.lba ≡ csd_capacity mmc.high_capacity st.id.csd_1 st.id.csd_2 / 512)
      × (st.sd.blk.blksz ≡ 512)

  describe-Started :
      (st : Driver h.State)
      → st.sd.mmc.ddr_mode ≡ false
      → 1 ≤ st.sd.mmc.b_max
      → st.sd.mmc.b_max < 2 ^ 32
      → st.sd.mmc.read_bl_len ≡ at_most_512 (2 ^ csd_read_bl st.id.csd_1)
      → st.sd.mmc.capacity ≡ csd_capacity st.sd.mmc.high_capacity st.id.csd_1 st.id.csd_2
      → IsCsd st.sd.mmc.high_capacity st.id.csd_1 st.id.csd_2
      → Started (describe st)
  unfolding describe
  describe-Started st single pos fits len cap v =
      let len' : st.sd.mmc.read_bl_len ≡ 512 =
        len ∙ csd_block_len (csd_read_bl st.id.csd_1) v.block_len_min v.block_len_max in
      let plain : (if st.sd.mmc.ddr_mode then 512 else st.sd.mmc.read_bl_len) ≡ 512 =
        rw single len' in
      let blocks : st.sd.mmc.capacity / (if st.sd.mmc.ddr_mode then 512 else st.sd.mmc.read_bl_len)
          ≡ csd_capacity st.sd.mmc.high_capacity st.id.csd_1 st.id.csd_2 / 512 =
        rw (plain, cap) refl in
      (
        Geometry-fields _ _ st.id.csd_1 st.id.csd_2 single pos fits plain blocks v,
        plain,
        refl,
        blocks,
        plain,
      )

  keep_csd-Started :
      (base named : Driver h.State) (st : Driver h.State) (w_0 w_1 w_2 w_3 : ℕ)
      → Addressed base named
      → base.sd.mmc.ddr_mode ≡ false
      → 1 ≤ base.sd.mmc.b_max
      → base.sd.mmc.b_max < 2 ^ 32
      → base.sd.blk.hwpart ≡ 0
      → Kept (set_capacity h (select_card h (set_dsr h (keep_csd w_0 w_1 w_2 w_3 named)))).state st
      → IsCsd (describe st).sd.mmc.high_capacity (describe st).id.csd_1 (describe st).id.csd_2
      → Started (describe st)
  unfolding describe keep_csd
  keep_csd-Started base named st w_0 w_1 w_2 w_3 a single pos fits user k v =
      let csd = keep_csd w_0 w_1 w_2 w_3 named in
      let user' : csd.sd.blk.hwpart ≡ 0 = ap (λ (b : BlkDesc). b.hwpart) a.blk ∙ user in
      let mmc_eq : st.sd.mmc
          ≡ record (csd.sd.mmc) { part_config = 0xff; capacity = csd.sd.mmc.capacity_user } =
        k.mmc ∙ set_capacity-user csd user' in
      let (one, two) = set_capacity-csd csd in
      let e_1 : st.id.csd_1 ≡ w_1 = k.csd_1 ∙ one in
      let e_2 : st.id.csd_2 ≡ w_2 = k.csd_2 ∙ two in
      let high : st.sd.mmc.high_capacity ≡ named.sd.mmc.high_capacity =
        ap (λ (m : Mmc). m.high_capacity) mmc_eq in
      let b_max : st.sd.mmc.b_max ≡ base.sd.mmc.b_max =
        ap (λ (m : Mmc). m.b_max) mmc_eq ∙ a.b_max in
      describe-Started st (ap (λ (m : Mmc). m.ddr_mode) mmc_eq ∙ a.ddr_mode ∙ single) (rw b_max pos)
        (rw b_max fits)
        (ap (λ (m : Mmc). m.read_bl_len) mmc_eq
          ∙ ap (λ (w : ℕ). at_most_512 (2 ^ csd_read_bl w)) (sym e_1))
        (ap (λ (m : Mmc). m.capacity) mmc_eq ∙ rw (high, e_1, e_2) refl) v

  -- When mmc_startup returns, for a driver that found no partition in use and is not in double data
  -- rate mode, and the CSD it kept is one that the SD specification allows, it returns success, and
  -- the block device it describes has blocks of 512 bytes, as many as the CSD's capacity has, and a
  -- geometry whose block addresses fit the commands of mmc_bread.
  pub mmc_startup-Started :
      (scr status ssr : ℕ) (st : Driver h.State) (r : Ret (Driver h.State))
      → mmc_startup h scr status ssr st ≡ some r
      → st.sd.mmc.ddr_mode ≡ false
      → 1 ≤ st.sd.mmc.b_max
      → st.sd.mmc.b_max < 2 ^ 32
      → st.sd.blk.hwpart ≡ 0
      → IsCsd r.state.sd.mmc.high_capacity r.state.id.csd_1 r.state.id.csd_2
      → (r.value ≡ 0) × Started r.state
  mmc_startup-Started scr status ssr st r e single pos fits user v =
      let (ok, read, started) = mmc_startup-parts scr status ssr st r e in
      let (named, w_0, w_1, w_2, w_3, csd, a) = read_csd-HasCsd st read in
      let (sized, finished) = start_card-finish scr status ssr _ r started ok in
      let (st', k, d) =
        finish_sd-describe scr status ssr _
          (ap (λ (x : Ret (Driver h.State)). x.value) (sym finished) ∙ ok) in
      let state : r.state ≡ describe st' =
        ap (λ (x : Ret (Driver h.State)). x.state) (finished ∙ d) in
      let k' = rw csd at k in
      let v' = rw state at v in
      (ok, rw state (keep_csd-Started st named st' w_0 w_1 w_2 w_3 a single pos fits user k' v'))
