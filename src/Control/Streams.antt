-- ===== src/Control/Streams.antt =====
-- The streams of a controller: their names, how much of each there is, and the input that an attached
-- client sends to the command.

use cubicle.Base.{some, codes, ◌||◌, Bytes, [], ℕ, none, List, Bool, if◌then◌else◌, Option, ◌∷◌}
use cubicle.Control.Client.{Client, Log, close_control_client}
use cubicle.Control.Read.{
  ReadResult, received, read_interrupted, read_would_block, read_failed, end_of_file,
}
use cubicle.Config.File.{same_text}

-- The file of a stream; a terminal's output is kept as the standard output.
unfoldable pub stream_file_name : Bytes → Option Bytes
stream_file_name stream =
    if same_text stream (codes "stdout") || same_text stream (codes "out")
    then some (codes "stdout.log")
    else if same_text stream (codes "tty")
    then some (codes "stdout.log")
    else if same_text stream (codes "stderr") || same_text stream (codes "err")
    then some (codes "stderr.log")
    else none

-- How many bytes a stream has, from the two offsets of the controller; `none` is -1.
unfoldable pub stream_available_offset : ℕ → ℕ → Bytes → Option ℕ
stream_available_offset stdout_offset stderr_offset stream =
    if same_text stream (codes "stdout") || same_text stream (codes "out")
    then some stdout_offset
    else if same_text stream (codes "tty")
    then some stdout_offset
    else if same_text stream (codes "stderr") || same_text stream (codes "err")
    then some stderr_offset
    else none

-- `accepts` says whether `write_best_effort` takes a piece of input. The last component is the pieces
-- that were written, each of which also becomes an input event.
unfoldable pub forward_attached_stdin :
    (Bytes → Bool) → List ReadResult → Client → Log → Client × Log × List Bytes
unfolding close_control_client
forward_attached_stdin accepts [] client log = (client, log, [])
forward_attached_stdin accepts (read_interrupted ∷ results) client log =
    forward_attached_stdin accepts results client log
forward_attached_stdin accepts (read_would_block ∷ results) client log = (client, log, [])
forward_attached_stdin accepts (read_failed ∷ results) client log =
    let (closed, log') = close_control_client client log in (closed, log', [])
forward_attached_stdin accepts (end_of_file ∷ results) client log =
    let (closed, log') = close_control_client client log in (closed, log', [])
forward_attached_stdin accepts (received now buffer ∷ results) client log =
    let (left, log', pieces) = forward_attached_stdin accepts results client log in
    if accepts buffer
    then (left, log', buffer ∷ pieces)
    else (let (closed, closed_log) = close_control_client client log in (closed, closed_log, []))
