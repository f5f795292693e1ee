-- ===== src/Tests/Frames.antt =====
-- Concrete frames of internal/controller/websocket.go, and output of a command (readDockerStream).
use docker_control.Prelude.{
  ℕ, false, List, [], ◌∷◌, ◌++◌, ◌≡◌, refl, none, some, arith, length, take, ltb,
}
use docker_control.Errors.{ok}
use docker_control.Text.{codes}
use docker_control.Bytes.{Stream}
use docker_control.Websocket.Defs.{
  Network, Conn, eof, net_closed, frame_header, write_frame, bytes_frame, close, read_text,
}
use docker_control.Websocket.Reading.{client_frame}
use docker_control.Websocket.Loop.{Masked, IsSendable, ping, pong, wire, answers, read_text-wire}
use docker_control.Websocket.Limits.{Within, read_text-Within}
use docker_control.Websocket.Writing.{decode, decode-frame_header, close_once, closed_with}
use docker_control.Stream.{Sink, read_docker_stream}
use docker_control.Stream.Frames.{Sent, encode, payloads, read_docker_stream-encode}
use docker_control.Stream.Bounds.{Ended, read_docker_stream-Ended}

abbrev open_net : Network
open_net before s = none

abbrev key_bytes : List ℕ
key_bytes = 7 ∷ 0 ∷ 255 ∷ 16 ∷ []

abbrev hello : Masked
hello = record { mask = key_bytes; payload = codes "hello" }

hello-IsSendable : IsSendable 100 hello
hello-IsSendable = record {
  four = refl;
  mask_bytes = (omega arith, (omega arith, (omega arith, (omega arith, tt))));
  payload_bytes = (omega arith, (omega arith, (omega arith, (omega arith, (omega arith, tt)))));
  fits = omega arith;
}

read_text-wire_example :
    read_text open_net 100 3 (record {
      input = record {
        bytes =
            wire
              (ping hello ∷ pong hello ∷ [])
              (client_frame 1 key_bytes (codes "hello") ++ (9 ∷ []));
        ending = eof;
      };
      output = [];
      closed = false;
      hung_up = false;
      read_deadline = none;
    })
    ≡ (
      some (ok (codes "hello")),
      record {
        input = record { bytes = 9 ∷ []; ending = eof };
        output = answers (ping hello ∷ pong hello ∷ []);
        closed = false;
        hung_up = false;
        read_deadline = none;
      },
    )
read_text-wire_example =
    read_text-wire open_net 100 (λ before s. refl) (omega arith) eof (ping hello ∷ pong hello ∷ [])
      hello (9 ∷ []) [] false none (hello-IsSendable, (hello-IsSendable, tt)) hello-IsSendable

abbrev opened : Conn
opened = record {
  input = record { bytes = 0x81 ∷ 0x80 ∷ 1 ∷ 2 ∷ 3 ∷ 4 ∷ []; ending = eof };
  output = [];
  closed = false;
  hung_up = false;
  read_deadline = none;
}

read_text-Within_example : Within 100 (read_text open_net 100 7 opened)
read_text-Within_example = read_text-Within open_net 100 7 opened (omega arith)

decode-frame_header_example :
    decode ((frame_header 2 3 ++ codes "abc") ++ codes "z")
    ≡ some (record { opcode = 2; payload = codes "abc" }, codes "z")
decode-frame_header_example =
    decode-frame_header 2 (codes "abc") (codes "z") (omega arith) (omega arith)

close_frame : bytes_frame 8 (codes "abc") ≡ frame_header 8 3 ++ codes "abc"
unfolding bytes_frame
close_frame = refl

close_once_example :
    (close open_net 1000 (codes "bye") opened ≡ closed_with 1000 (codes "bye") opened)
    × (close open_net 1001 (codes "again") (close open_net 1000 (codes "bye") opened)
        ≡ close open_net 1000 (codes "bye") opened)
    × (write_frame open_net 1 (codes "late") (close open_net 1000 (codes "bye") opened)
        ≡ (some net_closed, close open_net 1000 (codes "bye") opened))
close_once_example =
    close_once open_net 1000 1001 (codes "bye") (codes "again") 1 (codes "late") opened
      (λ before s. refl) refl (omega arith)

abbrev two_frames : List Sent
two_frames =
    record { mark = 1; payload = codes "abc" } ∷ record { mark = 2; payload = codes "defg" } ∷ []

abbrev taking : Sink
taking = some (λ before chunk. none)

read_docker_stream-encode_example :
    (read_docker_stream 5 taking (record { bytes = encode two_frames; ending = eof })).0
    ≡ some (ok (take 5 (payloads two_frames), ltb 5 (length (payloads two_frames))))
read_docker_stream-encode_example =
    read_docker_stream-encode 5 taking two_frames eof (λ before chunk. refl)
      (omega arith, (omega arith, tt)) refl

abbrev broken : Stream
broken = record { bytes = 1 ∷ 0 ∷ 0 ∷ 0 ∷ 0 ∷ 0 ∷ 0 ∷ 9 ∷ 65 ∷ []; ending = eof }

read_docker_stream-Ended_example : Ended 5 taking (read_docker_stream 5 taking broken)
read_docker_stream-Ended_example = read_docker_stream-Ended 5 taking broken
