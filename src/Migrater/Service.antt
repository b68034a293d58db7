-- ===== src/Migrater/Service.antt =====
-- `MigraterService` of src/migrater/server.py. Its threads are the handler of
-- `NotifyCheckpointSaved`, the heartbeat thread, one thread for each transfer, and `serve`. A
-- section under the lock, or an access of an `Event` or of the progress buffer, is one step; two
-- exceptions: `NotifyCheckpointSaved` is one step, at its locked section, since the flag that it
-- tests before is never cleared and is tested again, and `_handle_instruction` is one step. The
-- heartbeat stream ends, at the head of its loop, with the connection or after `stream` has raised,
-- by `disconnects`.
pub mod Permission
pub mod Shutdown
pub mod Overlap
pub mod Completion
pub mod Waiting
use ca_project.Common.{
  ℕ, zero, suc, String, Bool, true, false, not, ◌&&◌, Option, none, some, List, [], ◌∷◌, map, ltb,
  ◌==◌, get_last?, if◌then◌else◌, Result, ok, raise,
}
use ca_project.Common.Int.{ℤ, pos, negsuc, pos_part, is_zero}
use ca_project.Float.{Float, of_nat, of_int}
use ca_project.Protocol.{
  Action, hold, start_flush, change_rate, exit, InstructionResponse, TransferProgress,
  HeartbeatRequest,
}
use ca_project.Migrater.Progress.{Ratio, Progress, ProgressBuffer, new_buffer, add, pop}
pub use ca_project.Migrater.State.{
  Phase, absent, waiting, released, copying, closing, over, Beat, idle, popped, sampled, broken,
  stopped, Migrater, Event, notifies, instructs, wakes, begins, reports, returns, closes, pops,
  samples, beats, disconnects, interrupts, set_phase, new_migrater,
}

-- `z <= 0`
abbrev pub not_positive : ℤ → Bool
not_positive (pos zero) = true
not_positive (pos (suc n)) = false
not_positive (negsuc n) = true

module _ {F : Type 0} where
  abbrev pub reply : Bool → Migrater F → Migrater F
  reply answer m = record m { replies = answer ∷ m.replies }

  -- `NotifyCheckpointSaved`; an exception of `getsize` goes to the caller and changes nothing.
  unfoldable pub notify_checkpoint_saved : Result ℕ → ℤ → ℤ → Migrater F → Migrater F
  notify_checkpoint_saved size epoch total_epochs m =
      if m.shutdown_requested then reply false m else (elim size [
        | raise e ↦ m
        | ok file_size ↦
            if m.transfer_active
            then reply false m
            else reply true (record m {
              transfer_allowed = false;
              pending_size = file_size;
              checkpoint_size = file_size;
              epoch = epoch;
              total_epochs = total_epochs;
              transfers = set_phase m.started waiting m.transfers;
              started = suc m.started;
            })
      ])

  -- `if not active and pending == 0: shutdown_complete.set()`
  abbrev pub complete_if_idle : Migrater F → Migrater F
  complete_if_idle m = record m {
    shutdown_complete =
        if not m.transfer_active && m.pending_size == 0 then true else m.shutdown_complete;
  }

  -- the end of the heartbeat thread, with its `finally`
  abbrev pub stop_beat : Migrater F → Migrater F
  stop_beat m = record (if m.shutdown_requested then complete_if_idle m else m) { beat = stopped }

  -- the locked part of the `finally` of `_do_transfer`
  abbrev pub end_transfer : Migrater F → Migrater F
  end_transfer m = record m { transfer_active = false; checkpoint_size = 0; current_rate = pos 0 }

  -- what follows it
  abbrev pub report_shutdown : Migrater F → Migrater F
  report_shutdown m = record m {
    shutdown_complete = if m.shutdown_requested then true else m.shutdown_complete;
  }

  -- `_do_transfer`: one step of transfer `i`
  advance : ℕ → Phase → (Migrater F → Migrater F) → Migrater F → Migrater F
  advance i to f m = record (f m) { transfers = set_phase i to (f m).transfers }

  module _ ⦃o : Float F⦄ where
    -- a quotient as a `float`
    abbrev pub to_float : Ratio → F
    to_float q = o.div (of_nat q.over) (of_nat q.under)

    -- `_progress_to_proto`
    abbrev pub progress_to_proto : Progress → TransferProgress F
    progress_to_proto item = record {
      timestamp = to_float item.timestamp;
      bytes_copied = item.bytes_copied;
      total_bytes = item.total_bytes;
      remaining_bytes = item.remaining_bytes;
      interval_seconds = to_float item.interval_seconds;
      interval_throughput_bps = to_float item.interval_throughput_bps;
      average_throughput_bps = to_float item.average_throughput_bps;
      configured_rate_bps = of_int item.configured_rate_bps;
      chunk_size_bytes = item.chunk_size_bytes;
    }

    -- `_handle_instruction`
    unfoldable pub handle_instruction : InstructionResponse F → Migrater F → Migrater F
    handle_instruction instruction m = elim instruction.action [
      | hold ↦ m
      | start_flush ↦ record m {
        current_rate = o.trunc instruction.rate_limit_bps;
        transfer_allowed = true;
      }
      | change_rate ↦ record m {
        current_rate = pos (pos_part (o.trunc instruction.rate_limit_bps));
        transfer_allowed = true;
      }
      | exit ↦
          let rate = o.trunc instruction.rate_limit_bps in
          record m {
            shutdown_requested = true;
            shutdown_complete = if m.transfer_active then m.shutdown_complete else true;
            current_rate =
                if ltb 0 m.pending_size && not_positive m.current_rate
                then (if is_zero rate then pos 500_000_000 else rate)
                else m.current_rate;
            transfer_allowed = true;
          }
    ]

    -- `_handle_instruction`, then `break` on EXIT
    abbrev pub on_instruction : InstructionResponse F → Migrater F → Migrater F
    on_instruction instruction m =
        let m' = handle_instruction instruction m in
        elim instruction.action [ exit ↦ stop_beat m' | _ ↦ m' ]

    -- the heartbeat that goes out
    abbrev pub beat_out : List Progress → ℕ → Bool → Migrater F → Migrater F
    beat_out items pending migrating m = record m {
      beat = idle;
      sent =
          record {
            worker_id = m.hostname;
            checkpoint_size = of_nat pending;
            is_migrating = migrating;
            progress = map progress_to_proto items;
            epoch = m.epoch;
            total_epochs = m.total_epochs;
          }
          ∷ m.sent;
    }

    -- The last part of the loop of `stream`: the size that remains, the share that is printed, which
    -- of an empty file is a division by zero, and the heartbeat.
    unfoldable pub send_heartbeat : List Progress → ℕ → Bool → Migrater F → Migrater F
    send_heartbeat items sampled_pending migrating m = elim (get_last? items) [
      | none ↦ beat_out items sampled_pending migrating m
      | some item ↦
          let m' = record m { pending_size = item.remaining_bytes } in
          if item.total_bytes == 0
          then record m' { beat = broken }
          else beat_out items item.remaining_bytes migrating m'
    ]

    abbrev pub when_live : Beat → Migrater F → Migrater F → Migrater F
    when_live stopped then_stay go = then_stay
    when_live _ then_stay go = go

    -- One event. One that cannot happen where its thread stands changes nothing.
    unfoldable pub step : Event F → Migrater F → Migrater F
    unfolding advance
    step (notifies size epoch total_epochs) m = notify_checkpoint_saved size epoch total_epochs m
    step (instructs instruction) m = when_live m.beat m (on_instruction instruction m)
    step (wakes i) m = elim (m.transfers i) [
      | waiting ↦ if m.transfer_allowed then advance i released (λ n. n) m else m
      | _ ↦ m
    ]
    step (begins i) m = elim (m.transfers i) [
      | released ↦ advance i copying (λ n. record n { transfer_active = true }) m
      | _ ↦ m
    ]
    step (reports i item) m = elim (m.transfers i) [
      | copying ↦ record m { progress = add item m.progress }
      | _ ↦ m
    ]
    step (returns i) m = elim (m.transfers i) [ copying ↦ advance i closing end_transfer m | _ ↦ m ]
    step (closes i) m = elim (m.transfers i) [ closing ↦ advance i over report_shutdown m | _ ↦ m ]
    step pops m = elim m.beat [
      | idle ↦
          if m.shutdown_complete
          then m
          else record m { progress = (pop m.progress).1; beat = popped (pop m.progress).0 }
      | _ ↦ m
    ]
    step samples m = elim m.beat [
      | popped items ↦ record m { beat = sampled items m.pending_size m.transfer_active }
      | _ ↦ m
    ]
    step beats m = elim m.beat [
      | sampled items pending migrating ↦ send_heartbeat items pending migrating m
      | _ ↦ m
    ]
    step disconnects m = when_live m.beat m (stop_beat m)
    step interrupts m = complete_if_idle (record m { shutdown_requested = true })

    unfoldable pub run : List (Event F) → Migrater F → Migrater F
    run [] m = m
    run (e ∷ es) m = run es (step e m)
