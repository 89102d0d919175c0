-- ===== src/Balance/TaskChannel/Turns.antt =====
-- lbclient.go: the connections of a backend's client take turns.
use iip.Prelude.{ℕ, zero, suc, ◌≡◌, Bool, List, Option, none, some, All}
use iip.Prelude.Dict.{lookup}
use iip.Client.{Result, returns, fails, unknown_error}
use iip.Client.Channels.{ClientChannel}
use iip.Balance.TaskChannel.{TaskClient, get_task_channel}

-- Each of these connections keeps a channel.
abbrev pub KeepChannels : TaskClient → List ℕ → Type 0
KeepChannels t = All (λ (a : ℕ). (c : ClientChannel) × (lookup a t.lbl_client_channels ≡ some c))

abbrev found_channel : Option ClientChannel → Result ClientChannel
found_channel none = fails unknown_error
found_channel (some c) = returns c

module _ (parses : List ℕ → Bool) (decode : List ℕ → Option (ℕ × ℕ)) (choice : ℕ)
    (arrived : Option (Option (List ℕ))) (dials : Bool) (keep : ℕ) where
  -- A client after some calls of getTaskChannel.
  unfoldable pub after_calls : ℕ → TaskClient → TaskClient
  unfolding get_task_channel
  after_calls zero t = t
  after_calls (suc n) t =
      (get_task_channel parses decode choice arrived dials keep (after_calls n t)).1
