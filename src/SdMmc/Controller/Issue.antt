-- ===== src/SdMmc/Controller/Issue.antt =====
-- The commands that `tegra_mmc_send_cmd_bounced` of Drivers/SdMmcDxe/SdMmc.c issues.
use nintendo_switch_pkg.Prelude.{ℕ, ◌%◌, ◌^◌, ◌≡◌, ◌⊎◌, false, Option, none, some, List, [], ◌∷◌}
use nintendo_switch_pkg.SdMmc.{Cmd, Data}
use nintendo_switch_pkg.SdMmc.Controller.{History, Env, Step, Io}
use nintendo_switch_pkg.SdMmc.Controller.SendCmd.{Reply, command_word, is_refused}
use nintendo_switch_pkg.SdMmc.Controller.Quiet.{commands, Quiet}

-- A call on commands so far: it writes none and returns -1 or not at all, or it writes one word.
abbrev pub Issued : Cmd → Option Data → List ℕ → Step (Option Reply) → Type 0
Issued c d before s =
    ((commands s.history ≡ before)
      × ((s.value ≡ none) ⊎ (s.value ≡ some (record { err = 1; response = [] }))))
    ⊎ ((commands s.history ≡ (command_word c d % 2 ^ 16) ∷ before) × (is_refused c ≡ false))

module _ (env : Env) where
  -- A record, so that the call is known from the goal.
  record Issues (c : Cmd) (d : Option Data) (m : Io (Option Reply)) : Type 0 where
    issues : (past : History) → Issued c d (commands past) (m past)
