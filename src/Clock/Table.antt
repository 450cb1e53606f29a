-- ===== src/Clock/Table.antt =====
-- The tables of Drivers/ClockManagementDxe/Tegra210/clock.c. Clock sources are CLOCK_ID_*, with 255
-- for CLOCK_ID_NONE; clock types are CLOCK_TYPE_*, with 255 for CLOCK_TYPE_NONE; internal ids are
-- the bytes of an INT8, so that 255 is the -1 of a peripheral that has no source register.
use nintendo_switch_pkg.Prelude.{ℕ, zero, suc, List, [], ◌∷◌, ◌++◌}

abbrev internal_ids_l : List ℕ
internal_ids_l =
    255 ∷ 255 ∷ 255 ∷ 255 ∷ 255 ∷ 255 ∷ 30 ∷ 31 ∷ 255 ∷ 21 ∷ 3 ∷ 0 ∷ 9 ∷ 255 ∷ 20 ∷ 25 ∷ 255 ∷ 4 ∷ 1
    ∷ 255 ∷ 18 ∷ 255 ∷ 255 ∷ 255 ∷ 255 ∷ 255 ∷ 15 ∷ 14 ∷ 32 ∷ 255 ∷ 54 ∷ 255 ∷ []

abbrev internal_ids_h : List ℕ
internal_ids_h =
    255 ∷ 255 ∷ 255 ∷ 255 ∷ 255 ∷ 255 ∷ 255 ∷ 255 ∷ 255 ∷ 13 ∷ 52 ∷ 255 ∷ 6 ∷ 255 ∷ 7 ∷ 10 ∷ 255
    ∷ 255 ∷ 29 ∷ 255 ∷ 255 ∷ 255 ∷ 38 ∷ 40 ∷ 255 ∷ 39 ∷ 255 ∷ 255 ∷ 255 ∷ 50 ∷ 255 ∷ 255 ∷ []

abbrev internal_ids_u : List ℕ
internal_ids_u =
    255 ∷ 48 ∷ 49 ∷ 46 ∷ 45 ∷ 47 ∷ 255 ∷ 51 ∷ 255 ∷ 53 ∷ 255 ∷ 255 ∷ 255 ∷ 255 ∷ 255 ∷ 255 ∷ 255
    ∷ 83 ∷ 255 ∷ 61 ∷ 255 ∷ 255 ∷ 255 ∷ 255 ∷ 255 ∷ 255 ∷ 255 ∷ 60 ∷ 255 ∷ 255 ∷ 255 ∷ 255 ∷ []

abbrev internal_ids_v : List ℕ
internal_ids_v =
    255 ∷ 255 ∷ 255 ∷ 65 ∷ 255 ∷ 67 ∷ 68 ∷ 69 ∷ 70 ∷ 71 ∷ 72 ∷ 255 ∷ 255 ∷ 255 ∷ 255 ∷ 77 ∷ 255
    ∷ 255 ∷ 255 ∷ 255 ∷ 255 ∷ 255 ∷ 255 ∷ 78 ∷ 255 ∷ 255 ∷ 255 ∷ 255 ∷ 93 ∷ 94 ∷ 255 ∷ 255 ∷ []

abbrev internal_ids_w : List ℕ
internal_ids_w =
    255 ∷ 255 ∷ 255 ∷ 255 ∷ 255 ∷ 255 ∷ 255 ∷ 255 ∷ 255 ∷ 255 ∷ 255 ∷ 255 ∷ 255 ∷ 255 ∷ 255 ∷ 255
    ∷ 255 ∷ 255 ∷ 255 ∷ 255 ∷ 255 ∷ 255 ∷ 255 ∷ 255 ∷ 255 ∷ 255 ∷ 255 ∷ 255 ∷ 255 ∷ 255 ∷ 255 ∷ 255
    ∷ []

abbrev internal_ids_x : List ℕ
internal_ids_x =
    255 ∷ 255 ∷ 255 ∷ 255 ∷ 255 ∷ 255 ∷ 119 ∷ 255 ∷ 255 ∷ 255 ∷ 255 ∷ 255 ∷ 255 ∷ 255 ∷ 255 ∷ 255
    ∷ 255 ∷ 255 ∷ 255 ∷ 255 ∷ 255 ∷ 255 ∷ 255 ∷ 255 ∷ 255 ∷ 255 ∷ 255 ∷ 255 ∷ 255 ∷ 255 ∷ 255 ∷ 255
    ∷ []

abbrev internal_ids_y : List ℕ
internal_ids_y =
    255 ∷ 128 ∷ 129 ∷ 130 ∷ 255 ∷ 138 ∷ 139 ∷ 255 ∷ 255 ∷ 255 ∷ 255 ∷ 255 ∷ 255 ∷ 255 ∷ 255 ∷ 255
    ∷ 141 ∷ 255 ∷ 255 ∷ 140 ∷ 255 ∷ 255 ∷ 255 ∷ 255 ∷ 255 ∷ 255 ∷ 255 ∷ 131 ∷ 255 ∷ 255 ∷ 255 ∷ 255
    ∷ []

unfoldable pub periph_id_to_internal_id : List ℕ
periph_id_to_internal_id =
    internal_ids_l ++ internal_ids_h ++ internal_ids_u ++ internal_ids_v ++ internal_ids_w
    ++ internal_ids_x ++ internal_ids_y

abbrev periph_types_src : List ℕ
periph_types_src =
    0 ∷ 0 ∷ 0 ∷ 11 ∷ 12 ∷ 255 ∷ 13 ∷ 13 ∷ 255 ∷ 14 ∷ 14 ∷ 255 ∷ 255 ∷ 13 ∷ 8 ∷ 8 ∷ 255 ∷ 255 ∷ 15
    ∷ 255 ∷ 13 ∷ 13 ∷ 255 ∷ 255 ∷ 255 ∷ 13 ∷ 13 ∷ 255 ∷ 255 ∷ 13 ∷ 13 ∷ 13 ∷ 15 ∷ 255 ∷ 255 ∷ 255
    ∷ 255 ∷ 255 ∷ 14 ∷ 17 ∷ 13 ∷ 255 ∷ 15 ∷ 255 ∷ 255 ∷ 13 ∷ 14 ∷ 13 ∷ 13 ∷ 13 ∷ 13 ∷ 13 ∷ 13 ∷ 13
    ∷ 0 ∷ 255 ∷ 255 ∷ 255 ∷ 255 ∷ 255 ∷ 15 ∷ 13 ∷ 255 ∷ 255 ∷ []

abbrev periph_types_vw : List ℕ
periph_types_vw =
    255 ∷ 13 ∷ 18 ∷ 0 ∷ 0 ∷ 14 ∷ 13 ∷ 13 ∷ 19 ∷ 255 ∷ 255 ∷ 255 ∷ 255 ∷ 13 ∷ 12 ∷ 7 ∷ 7 ∷ 7 ∷ 255
    ∷ 12 ∷ 255 ∷ 255 ∷ 255 ∷ 255 ∷ 255 ∷ 255 ∷ 255 ∷ 255 ∷ 4 ∷ 4 ∷ 13 ∷ 255 ∷ []

abbrev periph_types_x : List ℕ
periph_types_x =
    255 ∷ 255 ∷ 255 ∷ 255 ∷ 255 ∷ 255 ∷ 255 ∷ 255 ∷ 255 ∷ 255 ∷ 255 ∷ 255 ∷ 255 ∷ 255 ∷ 255 ∷ 255
    ∷ 255 ∷ 255 ∷ 255 ∷ 255 ∷ 255 ∷ 255 ∷ 255 ∷ 14 ∷ 255 ∷ 17 ∷ 255 ∷ 255 ∷ 255 ∷ 255 ∷ 255 ∷ 255
    ∷ []

abbrev periph_types_y : List ℕ
periph_types_y =
    255 ∷ 255 ∷ 255 ∷ 255 ∷ 255 ∷ 255 ∷ 255 ∷ 255 ∷ 255 ∷ 255 ∷ 255 ∷ 255 ∷ 20 ∷ 255 ∷ 255 ∷ 255
    ∷ 255 ∷ 255 ∷ []

unfoldable pub clock_periph_type : List ℕ
clock_periph_type = periph_types_src ++ periph_types_vw ++ periph_types_x ++ periph_types_y

-- A row: the eight sources of a clock type, and then the mux field of its registers.
unfoldable pub clock_source : List (List ℕ)
clock_source =
    (3 ∷ 6 ∷ 2 ∷ 11 ∷ 255 ∷ 255 ∷ 255 ∷ 255 ∷ 0 ∷ [])
    ∷ (1 ∷ 0 ∷ 2 ∷ 3 ∷ 255 ∷ 255 ∷ 255 ∷ 255 ∷ 0 ∷ [])
    ∷ (1 ∷ 0 ∷ 2 ∷ 11 ∷ 255 ∷ 255 ∷ 255 ∷ 255 ∷ 0 ∷ [])
    ∷ (2 ∷ 0 ∷ 1 ∷ 255 ∷ 255 ∷ 255 ∷ 255 ∷ 255 ∷ 0 ∷ [])
    ∷ (2 ∷ 0 ∷ 1 ∷ 11 ∷ 255 ∷ 255 ∷ 255 ∷ 255 ∷ 0 ∷ [])
    ∷ (2 ∷ 5 ∷ 0 ∷ 11 ∷ 255 ∷ 255 ∷ 255 ∷ 255 ∷ 0 ∷ [])
    ∷ (3 ∷ 0 ∷ 2 ∷ 11 ∷ 255 ∷ 255 ∷ 255 ∷ 255 ∷ 0 ∷ [])
    ∷ (3 ∷ 8 ∷ 2 ∷ 11 ∷ 7 ∷ 255 ∷ 255 ∷ 255 ∷ 1 ∷ [])
    ∷ (2 ∷ 1 ∷ 5 ∷ 3 ∷ 0 ∷ 14 ∷ 11 ∷ 255 ∷ 1 ∷ [])
    ∷ (2 ∷ 0 ∷ 8 ∷ 11 ∷ 255 ∷ 255 ∷ 255 ∷ 255 ∷ 2 ∷ [])
    ∷ (255 ∷ 255 ∷ 255 ∷ 255 ∷ 255 ∷ 255 ∷ 255 ∷ 255 ∷ 2 ∷ [])
    ∷ (2 ∷ 17 ∷ 0 ∷ 18 ∷ 1 ∷ 255 ∷ 255 ∷ 255 ∷ 1 ∷ [])
    ∷ (2 ∷ 17 ∷ 0 ∷ 18 ∷ 8 ∷ 255 ∷ 11 ∷ 255 ∷ 1 ∷ [])
    ∷ (2 ∷ 17 ∷ 0 ∷ 18 ∷ 1 ∷ 255 ∷ 11 ∷ 255 ∷ 1 ∷ [])
    ∷ (2 ∷ 17 ∷ 0 ∷ 18 ∷ 1 ∷ 255 ∷ 11 ∷ 255 ∷ 1 ∷ [])
    ∷ (1 ∷ 17 ∷ 0 ∷ 18 ∷ 2 ∷ 255 ∷ 3 ∷ 255 ∷ 1 ∷ [])
    ∷ (1 ∷ 255 ∷ 255 ∷ 255 ∷ 255 ∷ 255 ∷ 255 ∷ 255 ∷ 0 ∷ [])
    ∷ (1 ∷ 0 ∷ 2 ∷ 11 ∷ 22 ∷ 17 ∷ 18 ∷ 255 ∷ 1 ∷ [])
    ∷ (2 ∷ 17 ∷ 0 ∷ 18 ∷ 11 ∷ 255 ∷ 8 ∷ 255 ∷ 1 ∷ [])
    ∷ (3 ∷ 17 ∷ 0 ∷ 18 ∷ 2 ∷ 255 ∷ 11 ∷ 23 ∷ 1 ∷ [])
    ∷ (2 ∷ 16 ∷ 15 ∷ 255 ∷ 21 ∷ 20 ∷ 11 ∷ 19 ∷ 1 ∷ [])
    ∷ []

-- Reads past the end of a table, which the callers' checks exclude, are 255.
unfoldable pub table_at : List ℕ → ℕ → ℕ
table_at [] n = 255
table_at (x ∷ xs) zero = x
table_at (x ∷ xs) (suc n) = table_at xs n

unfoldable pub row_at : List (List ℕ) → ℕ → List ℕ
row_at [] n = []
row_at (x ∷ xs) zero = x
row_at (x ∷ xs) (suc n) = row_at xs n
