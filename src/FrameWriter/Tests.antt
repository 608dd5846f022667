-- ===== src/FrameWriter/Tests.antt =====
-- A writer whose peer pauses in the middle, with payloads of two bytes.
use nodejs_wss_tunnel.Prelude.{◌≡◌, refl, ◌*◌, true, false, none, some, List, [], ◌∷◌, arith}
use nodejs_wss_tunnel.FrameWriter.{
  WriterEnv, Writer, new_writer, WriterEvent, on_write, on_drained, on_peer_paused, on_destroy,
  handle, writer_run, write, send_chunk, send_rest, conclude, before_send, set_peer_paused,
  resume_pending, drained, destroy,
}
use nodejs_wss_tunnel.FrameWriter.Histories.{IsFaithful}
use nodejs_wss_tunnel.FrameWriter.Runs.{all_bytes_with, all_callbacks_with, writer_run-IsFaithful}
use nodejs_wss_tunnel.FrameWriter.Delivery.{IsFlowing, IsDelivered, set_peer_paused-delivers}

abbrev flowing : WriterEnv
flowing = record {
  ws_high_water = 1024;
  max_frame_payload = 2;
  is_open = λ n. true;
  buffered_amount = λ n. 0;
  sends = λ n. true;
}

-- Above the mark after one frame.
abbrev slow : WriterEnv
slow = record flowing { buffered_amount = λ n. n * 2000 }

abbrev history : List (WriterEnv × WriterEvent)
history =
    (slow, on_write (1 ∷ 2 ∷ 3 ∷ 4 ∷ 5 ∷ []) 1)
    ∷ (flowing, on_peer_paused true)
    ∷ (flowing, on_drained none)
    ∷ (flowing, on_peer_paused false)
    ∷ (flowing, on_destroy none)
    ∷ []

writer_run-sent : (writer_run new_writer history).sent ≡ (1 ∷ 2 ∷ []) ∷ (3 ∷ 4 ∷ []) ∷ (5 ∷ []) ∷ []
unfolding writer_run handle write send_chunk send_rest conclude before_send set_peer_paused
    resume_pending drained destroy
writer_run-sent = refl

writer_run-IsFaithful_example :
    IsFaithful
      (all_bytes_with [] history)
      (all_callbacks_with [] history)
      (writer_run new_writer history)
unfolding handle write send_chunk send_rest conclude before_send set_peer_paused resume_pending
    drained
writer_run-IsFaithful_example =
    writer_run-IsFaithful history
      (omega arith, (omega arith, (omega arith, (omega arith, (omega arith, tt))))) refl

flowing-IsFlowing : IsFlowing flowing
flowing-IsFlowing = record {
  is_open = λ n. refl;
  below = λ n. omega arith;
  sends = λ n. refl;
  has_limit = omega arith;
}

abbrev held : Writer
held = record new_writer { peer_paused = true; pending = some (3 ∷ 4 ∷ 5 ∷ [], 1) }

set_peer_paused-delivers_example :
    IsDelivered flowing flowing-IsFlowing [] []
      (set_peer_paused flowing held false)
      (3 ∷ 4 ∷ 5 ∷ [])
      1
set_peer_paused-delivers_example =
    set_peer_paused-delivers flowing flowing-IsFlowing held (3 ∷ 4 ∷ 5 ∷ []) 1 refl refl
