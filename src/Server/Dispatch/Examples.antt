-- ===== src/Server/Dispatch/Examples.antt =====
-- The transmission of nbd/server at concrete inputs.
use pond.Prelude.{
  ℕ, ◌≤◌, ◌<◌, ◌≡◌, refl, ◌⊎◌, ◌==◌, true, false, Option, none, some, List, [], ◌∷◌, ◌++◌, take,
  length, arith,
}
use pond.Prelude.Bytes.{be16, be32, be64}
use pond.Prelude.Words.{slt}
use pond.Server.Const.{nbd_request_magic, nbd_cmd_read, nbd_cmd_write}
use pond.Server.Conn.{Conn, receive, send}
use pond.Server.Transmit.{Answer, count_errors, payload, buffer_len}
use pond.Server.Dispatch.{Request, Reading, checks, parse, ended, round}
use pond.Server.Dispatch.System.{
  System, offers, discards, receiver_goes_on, main_goes_on, thread_goes_on, returned, invalid_magic,
  step, receiver_step, main_step, thread_step, take_command, initial,
}
use pond.Server.Dispatch.Framing.{IsReplies, IsBegun}
use pond.Server.Dispatch.Runs.{world, IsFair, IsHonest, Reach, begin, go}
use pond.Server.Dispatch.Replies.{Reach-IsReplies}
use pond.Server.Dispatch.Race.{write_races}
use pond.Server.Dispatch.Cut.{read_cut}

abbrev request : ℕ → ℕ → List ℕ
request type len =
    be32 nbd_request_magic ++ (be16 0 ++ (be16 type ++ (be64 7 ++ (be64 0 ++ be32 len))))

abbrev client : List ℕ → Conn
client sent = record { incoming = sent; outgoing = []; room = 1000; segment = 99 }

abbrev or_same : System → Option System → System
or_same s none = s
or_same s (some s') = s'

-- A READ of two bytes, up to the header of its reply and the first of them.
abbrev reading : Conn
reading = client (request nbd_cmd_read 2)

abbrev one_byte : Answer
one_byte = record { bytes = b'a' ∷ []; failed = true }

abbrev s1 : System
s1 = or_same (initial reading) (step receiver_goes_on (initial reading))

abbrev s2 : System
s2 = or_same s1 (step main_goes_on s1)

abbrev s3 : System
s3 = or_same s2 (step (thread_goes_on 0 one_byte) s2)

abbrev s4 : System
s4 = or_same s3 (step (thread_goes_on 0 one_byte) s3)

abbrev all_a : ℕ → ℕ
all_a j = b'a'

reached : Reach (IsHonest (world reading all_a)) reading s4
unfolding step receiver_step main_step thread_step take_command round receive send parse be16 be32
    be64 slt buffer_len payload count_errors
reached =
    go (thread_goes_on 0 one_byte)
      (go (thread_goes_on 0 one_byte) (go main_goes_on (go receiver_goes_on begin tt refl) tt refl)
        (omega arith, (refl, tt)) refl)
      tt refl

s4_room : 0 < s4.conn.room
unfolding step receiver_step main_step thread_step take_command round receive send parse be16 be32
    be64 slt buffer_len payload count_errors
s4_room = omega arith

Reach-IsReplies_example :
    (IsReplies (world reading all_a) s4.conn.outgoing
      ⊎ ((cmd : Request) × (sofar : List ℕ) × IsBegun
            (world reading all_a)
            cmd
            sofar
            s4.conn.outgoing))
    × (((j : ℕ) → s4.threads j ≡ ended) → IsReplies (world reading all_a) s4.conn.outgoing)
Reach-IsReplies_example = Reach-IsReplies reading all_a s4 refl reached s4_room

-- A WRITE of 28 zero bytes, and 28 bytes behind it.
abbrev zeros : List ℕ
zeros = be64 0 ++ (be64 0 ++ (be64 0 ++ be32 0))

abbrev writing : Conn
writing = client (request nbd_cmd_write 28 ++ (zeros ++ zeros))

abbrev write_request : Request
write_request = record {
  magic = nbd_request_magic;
  flag = 0;
  type = nbd_cmd_write;
  cookie = 7;
  offset = 0;
  len = 28;
}

abbrev behind_request : System
behind_request = record (initial writing) {
  conn = record writing { incoming = zeros ++ zeros };
  receiver = offers write_request;
}

offered : Reach IsFair writing behind_request
unfolding step receiver_step receive parse be16 be32 be64
offered = go receiver_goes_on begin tt refl

zeros_bad : ((parse (take 28 (zeros ++ zeros))).magic == nbd_request_magic) ≡ false
unfolding parse be16 be32 be64
zeros_bad = refl

zeros_enough : 56 ≤ length (zeros ++ zeros)
unfolding be16 be32 be64
zeros_enough = omega arith

write_races_example :
    (s' : System) × Reach IsFair writing s' × (s'.main ≡ returned (some invalid_magic))
write_races_example =
    write_races writing behind_request write_request
      (record { valid = refl; plain = refl; write = refl }) refl refl refl zeros_enough
      (omega arith) zeros_bad offered

-- A READ of two bytes, and a WRITE of five whose payload is missing.
abbrev cutting : Conn
cutting = client (request nbd_cmd_read 2 ++ request nbd_cmd_write 5)

abbrev c1 : System
c1 = or_same (initial cutting) (step receiver_goes_on (initial cutting))

abbrev c2 : System
c2 = or_same c1 (step main_goes_on c1)

abbrev c3 : System
c3 = or_same c2 (step receiver_goes_on c2)

abbrev c4 : System
c4 = or_same c3 (step main_goes_on c3)

abbrev c5 : System
c5 = or_same c4 (step (thread_goes_on 0 one_byte) c4)

abbrev c6 : System
c6 = or_same c5 (step (thread_goes_on 0 one_byte) c5)

abbrev c7 : System
c7 = or_same c6 (step (thread_goes_on 0 one_byte) c6)

c7_reached : Reach IsFair cutting c7
unfolding step receiver_step main_step thread_step take_command round receive send parse be16 be32
    be64 slt buffer_len payload count_errors
c7_reached =
    go (thread_goes_on 0 one_byte)
      (go (thread_goes_on 0 one_byte)
        (go (thread_goes_on 0 one_byte)
          (go main_goes_on
            (go receiver_goes_on (go main_goes_on (go receiver_goes_on begin tt refl) tt refl) tt
              refl)
            tt refl)
          (omega arith) refl)
        tt refl)
      tt refl

-- One byte of the two is sent.
abbrev half_read : Reading
half_read = record {
  cmd = record {
    magic = nbd_request_magic;
    flag = 0;
    type = nbd_cmd_read;
    cookie = 7;
    offset = 0;
    len = 2;
  };
  cur = 1;
  end = 2;
  size = 2;
  in_transaction = true;
  io_errors = 0;
}

c7_main : c7.main ≡ discards 5 7
unfolding step receiver_step main_step thread_step take_command round receive send parse be16 be32
    be64 slt buffer_len payload count_errors
c7_main = refl

c7_short : length c7.conn.incoming < 5
unfolding step receiver_step main_step thread_step take_command round receive send parse be16 be32
    be64 slt buffer_len payload count_errors
c7_short = omega arith

c7_checks : c7.threads 0 ≡ checks half_read
unfolding step receiver_step main_step thread_step take_command round receive send parse be16 be32
    be64 slt buffer_len payload count_errors
c7_checks = refl

read_cut_example :
    (s' : System) × Reach IsFair cutting s'
    × (s'.threads 0 ≡ ended)
    × (s'.holder ≡ none)
    × (s'.conn.outgoing ≡ c7.conn.outgoing)
    × (s'.conn.room ≡ c7.conn.room)
read_cut_example = read_cut cutting c7 0 5 7 half_read c7_main c7_short c7_checks refl c7_reached
