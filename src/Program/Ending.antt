-- ===== src/Program/Ending.antt =====
-- backend/main.go: the end of the process. The select of `main` is left by what the server sent, or
-- by a signal; what follows is a list of acts on the two goroutines, the server's and the ping
-- manager's. An act that waits for a goroutine that nothing ended blocks.
use wol_secure_light_switch.Prelude.{
  ◌≡◌, refl, Bool, true, false, not, Option, none, some, List, [], ◌∷◌, ◌++◌, if◌then◌else◌,
}

-- Whether the server's error is one, and not nil or `http.ErrServerClosed`; whether `Shutdown`
-- reports no error within its time.
pub data Cause : Type 0 where
  server_ended : (failed : Bool) → Cause
  signalled : (shut_down : Bool) → Cause

pub data Act : Type 0 where
  cancel shut_down_server close_server await_server await_manager fail : Act

unfoldable pub ending : Cause → List Act
ending (server_ended failed) = cancel ∷ await_manager ∷ (if failed then fail ∷ [] else [])
ending (signalled shut_down) =
    cancel ∷ shut_down_server ∷ (if shut_down then [] else close_server ∷ [])
    ++ await_server ∷ await_manager ∷ (if shut_down then [] else fail ∷ [])

pub record Threads : Type 0 where
  pub cancelled : Bool
  pub listening : Bool
  pub server_done : Bool
  pub manager_done : Bool
  pub failed : Bool

-- The server's goroutine ends by `Shutdown` or `Close`, the manager's by the cancelled context.
unfoldable pub act : Act → Threads → Option Threads
act cancel t = some (record t { cancelled = true })
act shut_down_server t = some (record t { listening = false })
act close_server t = some (record t { listening = false })
act await_server t = if t.listening then none else some (record t { server_done = true })
act await_manager t = if t.cancelled then some (record t { manager_done = true }) else none
act fail t = some (record t { failed = true })

unfoldable pub act_all : List Act → Threads → Option Threads
unfolding act
act_all [] t = some t
act_all (a ∷ acts) t = elim (act a t) [ none ↦ none | some next ↦ act_all acts next ]

-- The goroutines when the select is left.
abbrev pub threads : Cause → Threads
threads (server_ended failed) = record {
  cancelled = false;
  listening = false;
  server_done = true;
  manager_done = false;
  failed = false;
}
threads (signalled shut_down) = record {
  cancelled = true;
  listening = true;
  server_done = false;
  manager_done = false;
  failed = false;
}

abbrev pub is_failure : Cause → Bool
is_failure (server_ended failed) = failed
is_failure (signalled shut_down) = not shut_down

-- Whatever ends the process, it does not block, both goroutines have ended, and the process fails
-- exactly on an error of the server or of its shutdown.
pub ending_lem :
    (c : Cause)
    → act_all (ending c) (threads c)
      ≡ some (record {
        cancelled = true;
        listening = false;
        server_done = true;
        manager_done = true;
        failed = is_failure c;
      })
unfolding ending act_all
ending_lem (server_ended true) = refl
ending_lem (server_ended false) = refl
ending_lem (signalled true) = refl
ending_lem (signalled false) = refl
