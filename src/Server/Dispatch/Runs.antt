-- ===== src/Server/Dispatch/Runs.antt =====
-- The runs of nbd/server's transmission, with what its surroundings do.
use pond.Prelude.{ℕ, ◌≤◌, length, ◌≡◌, some}
use pond.Server.Conn.{Conn}
use pond.Server.Transmit.{Answer}
use pond.Server.Dispatch.{round_size, Thread, rounds, checks, begins, sends, refuses, ended}
use pond.Server.Dispatch.System.{
  System, Main, waits, discards, answers, checks_discard, checks_answer, returned, Choice,
  receiver_goes_on, receiver_stops, main_goes_on, main_stops, thread_goes_on, step, initial,
}
use pond.Server.Dispatch.Data.{World}
use pond.Server.Dispatch.Threads.{IsAnswer}
use pond.Server.Dispatch.Sending.{}
use pond.Server.Dispatch.Sources.{IsSent}

-- The backend keeps the contract of io.ReaderAt where a step asks it.
abbrev pub FairThread : Answer → Thread → Type 0
FairThread a (rounds r) = length a.bytes ≤ round_size r
FairThread a (checks r) = Unit
FairThread a (begins r bytes) = Unit
FairThread a (sends r bytes) = Unit
FairThread a (refuses cookie) = Unit
FairThread a ended = Unit

abbrev pub IsFair : Choice → System → Type 0
IsFair (thread_goes_on i a) s = FairThread a (s.threads i)
IsFair receiver_goes_on s = Unit
IsFair receiver_stops s = Unit
IsFair main_goes_on s = Unit
IsFair main_stops s = Unit

-- The backend keeps the contract, and gives the bytes of a disk.
abbrev pub HonestThread : World → Answer → Thread → Type 0
HonestThread w a (rounds r) = IsAnswer w a r
HonestThread w a (checks r) = Unit
HonestThread w a (begins r bytes) = Unit
HonestThread w a (sends r bytes) = Unit
HonestThread w a (refuses cookie) = Unit
HonestThread w a ended = Unit

-- The payload that the loop discards is all there.
abbrev pub WholePayload : Main → Conn → Type 0
WholePayload (discards n cookie) c = n ≤ length c.incoming
WholePayload waits c = Unit
WholePayload (checks_discard cookie) c = Unit
WholePayload (answers cookie error) c = Unit
WholePayload checks_answer c = Unit
WholePayload (returned e) c = Unit

abbrev pub IsHonest : World → Choice → System → Type 0
IsHonest w (thread_goes_on i a) s = HonestThread w a (s.threads i)
IsHonest w main_goes_on s = WholePayload s.main s.conn
IsHonest w receiver_goes_on s = Unit
IsHonest w receiver_stops s = Unit
IsHonest w main_stops s = Unit

-- The states that a transmission reaches by steps that are fair.
pub data Reach (Fair : Choice → System → Type 0) (c : Conn) : System → Type 0 where
  begin : Reach Fair c (initial c)
  go :
      (choice : Choice) {s s' : System}
      → Reach Fair c s
      → Fair choice s
      → step choice s ≡ some s'
      → Reach Fair c s'

-- The client of a connection, and a disk.
abbrev pub world : Conn → (ℕ → ℕ) → World
world c disk = record { Asked = IsSent c; disk = disk }
