-- ===== src/Handler/Tasks.antt =====
-- The closures of src/net/message_handler.cpp, src/app.cpp and src/ui/ui_manager.cpp on the render thread, and the queue of
-- src/state/app_state.cpp that they wait in.
use ircord_client.Base.{ℕ, true, List, [], ◌∷◌, ◌++◌, if◌then◌else◌, Text, codes, text_eq}
use ircord_client.AppState.{
  online, ensure_channel, push_message, set_presence, set_active_channel, set_channel_users,
  remove_channel,
}
use ircord_client.Handler.Types.{
  Task, pushes_to, says, shows_presence, enters_room, joined_voice, left_voice, shows_in,
  enters_channel, lists_users, removes_channel, Handler,
}
use ircord_client.Handler.Outbound.{server, system_message, push_system}

-- `std::remove` of a value.
unfoldable pub without : Text → List Text → List Text
without x [] = []
without x (y ∷ ys) = if text_eq y x then without x ys else y ∷ without x ys

module _ {ℓ} {C : Type ℓ} where
  -- A closure on the render thread. Those on voice take a snapshot of the voice state and set it again:
  -- one step here, though the source does not hold the lock in between.
  unfoldable pub run_task : ℕ → Task → Handler C → Handler C
  unfolding push_system without
  run_task now (pushes_to channel_id m) h = record h { state = push_message channel_id m h.state }
  run_task now (says m) h = record h {
    state = push_message server m (ensure_channel server h.state);
  }
  run_task now (shows_presence uid status) h =
      push_system now
        (uid ++ (elim status [ online ↦ codes " is now online" | _ ↦ codes " went offline" ]))
        (record h { state = set_presence uid status h.state })
  run_task now (enters_room channel_id participants) h = record h {
    state = record h.state {
      voice = record h.state.voice {
        in_voice = true;
        active_channel = channel_id;
        participants = participants;
      };
    };
  }
  run_task now (joined_voice channel_id user_id) h = record h {
    state =
        push_message channel_id (system_message now (user_id ++ codes " joined voice"))
          (record h.state {
            voice = record h.state.voice {
              participants = h.state.voice.participants ++ (user_id ∷ []);
            };
          });
  }
  run_task now (left_voice channel_id user_id) h = record h {
    state =
        push_message channel_id (system_message now (user_id ++ codes " left voice"))
          (record h.state {
            voice = record h.state.voice {
              participants = without user_id h.state.voice.participants;
            };
          });
  }
  run_task now (shows_in channel_id m activates) h = record h {
    state =
        let there = ensure_channel channel_id h.state in
        push_message channel_id m
          (if activates then set_active_channel channel_id there else there);
  }
  run_task now (enters_channel channel_id) h = record h {
    state = set_active_channel channel_id (ensure_channel channel_id h.state);
  }
  run_task now (lists_users channel_id users) h = record h {
    state = set_channel_users channel_id users h.state;
  }
  run_task now (removes_channel first channel_id) h = record h {
    state = remove_channel first channel_id h.state;
  }

  abbrev pub run_tasks : ℕ → List Task → Handler C → Handler C
  run_tasks now [] h = h
  run_tasks now (t ∷ ts) h = run_tasks now ts (run_task now t h)

  -- The batch is taken out first; what the closures post waits for the next drain.
  unfoldable pub drain_ui_queue : ℕ → Handler C → Handler C
  drain_ui_queue now h = run_tasks now h.ui_queue (record h { ui_queue = [] })
