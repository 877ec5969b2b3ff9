-- ===== src/Tests/Goroutines.antt =====
-- Two calls of `send` at a time, the second of which is answered first.
use goads.Base.{◌≡◌, arith, refl, false, true}
use goads.Base.Assoc.{lookup, insert}
use goads.Ams.Packet.{Packet, read_response}
use goads.Ams.Packet.Wire.{packet_wire}
use goads.Client.{turn}
use goads.Client.Send.{send, fresh_id, with_id, read_as}
use goads.Client.Steps.{System, Step, Reach, start, later, Steps, here, onward, answered}
use goads.Client.Steps.Invariant.{invoke_id_of}
use goads.Client.Steps.Safety.{Safe, Proper, receive-Safe, returns_Proper}
use goads.Client.Steps.Progress.{Kept, response-Kept}
use goads.Client.Steps.Answers.{Answerable, waiting-Answerable}
use goads.Client.Steps.Sequential.{Behind, After, send-Steps, turn-Steps}
use goads.Tests.Reads.{read_request_data, read_response_data}
use goads.Tests.Clients.{willing, answer-IsPacket}

abbrev packet : Packet
packet = read_response read_response_data

unfoldable both_wait : (s : System) × Reach false 75 s
unfolding fresh_id with_id lookup insert
both_wait = (
  _,
  later
      (later
        (later
          (later (later (later start Step.begins) (Step.registers 0 {id = 76} refl)) (Step.begins))
          (Step.registers 1 {id = 77} refl))
        (Step.writes 1 {id = 77} refl))
      (Step.writes 0 {id = 76} refl),
)

unfoldable second_found : (s : System) × Reach false 75 s
unfolding fresh_id with_id lookup insert both_wait
second_found = (_, later both_wait.1 (Step.finds 77 packet {i = 1} refl refl))

unfoldable to_answer : (t : System) × Steps false second_found.0 t
unfolding fresh_id with_id lookup insert both_wait second_found
to_answer = (
  _,
  onward (Step.sends {i = 1} {k = 77} {p = packet} refl refl refl)
      (onward (Step.gets 1 {id = 77} {k = 77} {p = packet} refl refl) here),
)

receive-Safe_example : Safe second_found.0.channel second_found.0.hand
receive-Safe_example = receive-Safe second_found.1

returns_Proper_example : (77 ≡ invoke_id_of 75 1) × Proper 77 (answered 77 packet)
unfolding to_answer second_found both_wait fresh_id with_id
returns_Proper_example =
    returns_Proper {s = to_answer.0} {i = 1}
      (later (later second_found.1 (Step.sends {i = 1} {k = 77} {p = packet} refl refl refl))
        (Step.gets 1 {id = 77} {k = 77} {p = packet} refl refl))
      refl

response-Kept_example :
    Kept 1 77 packet (to_answer.0.phase 1) (to_answer.0.channel 1) to_answer.0.hand
unfolding second_found both_wait
response-Kept_example = response-Kept {id = 77} second_found.1 refl refl to_answer.1

waiting-Answerable_example : Answerable packet second_found.0 0 76
unfolding second_found both_wait fresh_id with_id
waiting-Answerable_example =
    waiting-Answerable packet second_found.1 (omega arith) (grind arith) refl

send-Steps_example :
    (t : System) × Steps false both_wait.0 t
    × Behind
        (send true both_wait.0.begun both_wait.0.client (read_as read_request_data))
        t
        both_wait.0.begun
        (fresh_id both_wait.0.client)
send-Steps_example = send-Steps true both_wait.0 (read_as read_request_data)

turn-Steps_example :
    (t : System) × Steps false both_wait.0 t
    × After 77 (turn willing both_wait.0.client (packet_wire packet)) t
unfolding both_wait
turn-Steps_example = turn-Steps willing packet both_wait.1 refl answer-IsPacket
