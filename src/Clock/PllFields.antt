-- ===== src/Clock/PllFields.antt =====
-- The fields of a PLL's base and misc words, as clock_start_pll of
-- Drivers/ClockManagementDxe/clock.c puts them together.
use Prim.Native.Nat.{bit_or}
use nintendo_switch_pkg.Prelude.{
  ℕ, ◌+◌, ◌-◌, ◌%◌, ◌^◌, ◌≤◌, ◌<◌, ◌≡◌, ◌⊎◌, false, arith, leb, if◌then◌else◌, ◌∙◌,
}
use nintendo_switch_pkg.Prelude.Bits.{
  test_bit, shl32, test_bit-bit_or, test_bit-shl32, test_bit-high, test_bit-low, eq_of_bits,
}
use nintendo_switch_pkg.Mmio.Field.{
  insert_field, extract_field, test_bit-extract_field, extract_field-insert_field,
  extract_field-insert_field_apart,
}
use nintendo_switch_pkg.Clock.Pll.{PllInfo, PllSetting, base_word, misc_word}

-- Bit `i` of the base word, for fields of `wm`, `wn` and `wp` bits that follow each other.
module _ (ms wm ns wn ps wp m n p : ℕ) (hm : m < 2 ^ wm) (hn : n < 2 ^ wn) (hp : p < 2 ^ wp)
    (mn : ms + wm ≤ ns) (np : ns + wn ≤ ps) (pe : ps + wp ≤ 30) where
  abbrev fields : ℕ
  fields = bit_or (bit_or (bit_or (shl32 m ms) (shl32 n ns)) (shl32 p ps)) (shl32 1 30)

  fields_bit :
      (i : ℕ)
      → i < 30
      → test_bit fields i ≡ (
          if leb ps i
          then test_bit p (i - ps)
          else if leb ns i
          then test_bit n (i - ns)
          else if leb ms i
          then test_bit m (i - ms)
          else false)
  fields_bit i small =
      rw
        (
          test_bit-bit_or i (bit_or (bit_or (shl32 m ms) (shl32 n ns)) (shl32 p ps)) (shl32 1 30),
          test_bit-bit_or i (bit_or (shl32 m ms) (shl32 n ns)) (shl32 p ps),
          test_bit-bit_or i (shl32 m ms) (shl32 n ns),
          test_bit-shl32 ms m i,
          test_bit-shl32 ns n i,
          test_bit-shl32 ps p i,
          test_bit-shl32 30 1 i,
        )
        (ground (
          arith,
          test_bit-high wm m (i - ms) hm,
          test_bit-high wn n (i - ns) hn,
          test_bit-high wp p (i - ps) hp,
        ))

  m_back : extract_field (2 ^ wm - 1) ms (fields % 2 ^ 32) ≡ m
  m_back = eq_of_bits _ _ λ i.
      rw (test_bit-extract_field wm ms (fields % 2 ^ 32) i, test_bit-low 32 fields (ms + i))
        (ground (
          arith,
          fields_bit (ms + i),
          test_bit-high wm m i hm,
          (let e : ms + i - ms ≡ i = omega arith in e),
        ))

  n_back : extract_field (2 ^ wn - 1) ns (fields % 2 ^ 32) ≡ n
  n_back = eq_of_bits _ _ λ i.
      rw (test_bit-extract_field wn ns (fields % 2 ^ 32) i, test_bit-low 32 fields (ns + i))
        (ground (
          arith,
          fields_bit (ns + i),
          test_bit-high wn n i hn,
          (let e : ns + i - ns ≡ i = omega arith in e),
        ))

  p_back : extract_field (2 ^ wp - 1) ps (fields % 2 ^ 32) ≡ p
  p_back = eq_of_bits _ _ λ i.
      rw (test_bit-extract_field wp ps (fields % 2 ^ 32) i, test_bit-low 32 fields (ps + i))
        (ground (
          arith,
          fields_bit (ps + i),
          test_bit-high wp p i hp,
          (let e : ps + i - ps ≡ i = omega arith in e),
        ))

extract_field-word :
    (w s x : ℕ)
    → s + w ≤ 32
    → extract_field (2 ^ w - 1) s (x % 2 ^ 32) ≡ extract_field (2 ^ w - 1) s x
extract_field-word w s x room = eq_of_bits _ _ λ i.
    rw
      (
        test_bit-extract_field w s (x % 2 ^ 32) i,
        test_bit-extract_field w s x i,
        test_bit-low 32 x (s + i),
      )
      (ground arith)

-- The two fields of the misc word, which do not overlap.
lfcon_back :
    (wk ks wv vs cpcon lfcon misc : ℕ)
    → lfcon < 2 ^ wv
    → vs + wv ≤ 32
    → extract_field
        (2 ^ wv - 1)
        vs
        (insert_field (2 ^ wv - 1) vs lfcon (insert_field (2 ^ wk - 1) ks cpcon misc) % 2 ^ 32)
      ≡ lfcon
lfcon_back wk ks wv vs cpcon lfcon misc hv room =
    extract_field-word wv vs _ room
    ∙ extract_field-insert_field wv vs lfcon (insert_field (2 ^ wk - 1) ks cpcon misc) hv room

cpcon_back :
    (wk ks wv vs cpcon lfcon misc : ℕ)
    → cpcon < 2 ^ wk
    → lfcon < 2 ^ wv
    → ks + wk ≤ 32
    → vs + wv ≤ 32
    → (vs + wv ≤ ks) ⊎ (ks + wk ≤ vs)
    → extract_field
        (2 ^ wk - 1)
        ks
        (insert_field (2 ^ wv - 1) vs lfcon (insert_field (2 ^ wk - 1) ks cpcon misc) % 2 ^ 32)
      ≡ cpcon
cpcon_back wk ks wv vs cpcon lfcon misc hk hv room room_v apart =
    extract_field-word wk ks _ room
    ∙ extract_field-insert_field_apart wv vs lfcon (insert_field (2 ^ wk - 1) ks cpcon misc) wk ks
        hv room_v room apart
    ∙ extract_field-insert_field wk ks cpcon misc hk room

-- The settings in the words `base` and `misc`.
abbrev pub setting_of : PllInfo → ℕ → ℕ → PllSetting
setting_of info base misc = record {
  divm = extract_field info.m_mask info.m_shift base;
  divn = extract_field info.n_mask info.n_shift base;
  divp = extract_field info.p_mask info.p_shift base;
  cpcon = extract_field info.kcp_mask info.kcp_shift misc;
  lfcon = extract_field info.kvco_mask info.kvco_shift misc;
}

setting_ext :
    {a b c d e a' b' c' d' e' : ℕ}
    → a ≡ a'
    → b ≡ b'
    → c ≡ c'
    → d ≡ d'
    → e ≡ e'
    → Path PllSetting
        (record { divm = a; divn = b; divp = c; cpcon = d; lfcon = e })
        (record { divm = a'; divn = b'; divp = c'; cpcon = d'; lfcon = e' })
setting_ext p q r s t = cc

-- The fields, by shift and width.
abbrev pub info_of : ℕ → ℕ → ℕ → ℕ → ℕ → ℕ → ℕ → ℕ → ℕ → ℕ → PllInfo
info_of ms wm ns wn ps wp ks wk vs wv = record {
  m_shift = ms;
  m_mask = 2 ^ wm - 1;
  n_shift = ns;
  n_mask = 2 ^ wn - 1;
  p_shift = ps;
  p_mask = 2 ^ wp - 1;
  kcp_shift = ks;
  kcp_mask = 2 ^ wk - 1;
  kvco_shift = vs;
  kvco_mask = 2 ^ wv - 1;
}

pub setting_back :
    (ms wm ns wn ps wp ks wk vs wv : ℕ) (p : PllSetting) (misc : ℕ)
    → ms + wm ≤ ns
    → ns + wn ≤ ps
    → ps + wp ≤ 30
    → ks + wk ≤ 32
    → vs + wv ≤ 32
    → (vs + wv ≤ ks) ⊎ (ks + wk ≤ vs)
    → p.divm < 2 ^ wm
    → p.divn < 2 ^ wn
    → p.divp < 2 ^ wp
    → p.cpcon < 2 ^ wk
    → p.lfcon < 2 ^ wv
    → setting_of
        (info_of ms wm ns wn ps wp ks wk vs wv)
        (base_word (info_of ms wm ns wn ps wp ks wk vs wv) p % 2 ^ 32)
        (misc_word (info_of ms wm ns wn ps wp ks wk vs wv) p misc % 2 ^ 32)
      ≡ p
unfolding base_word misc_word
setting_back ms wm ns wn ps wp ks wk vs wv p misc mn np pe kin vin apart hm hn hp hk hv =
    setting_ext (m_back ms wm ns wn ps wp p.divm p.divn p.divp hm hn hp mn np pe)
      (n_back ms wm ns wn ps wp p.divm p.divn p.divp hm hn hp mn np pe)
      (p_back ms wm ns wn ps wp p.divm p.divn p.divp hm hn hp mn np pe)
      (cpcon_back wk ks wv vs p.cpcon p.lfcon misc hk hv kin vin apart)
      (lfcon_back wk ks wv vs p.cpcon p.lfcon misc hv vin)
