-- ===== src/Server/Dispatch/Cut.antt =====
-- The variable `err` that the goroutines of nbd/server's transmission share.
use pond.Prelude.{
  ℕ, ◌<◌, ◌≡◌, refl, sym, subst, ◌∙◌, ap, ◌==◌, true, false, none, some, [], length, ltb, arith,
}
use pond.Server.Conn.{Conn, err, eof}
use pond.Server.Discard.{discard, discard_lem}
use pond.Server.Transmit.{Answer}
use pond.Server.Dispatch.{Reading, checks, ended}
use pond.Server.Dispatch.Runs.{Reach, go, FairThread, IsFair}
use pond.Server.Dispatch.System.{
  System, main_goes_on, thread_goes_on, discards, checks_discard, set_thread, unlock, after_discard,
  step, main_step, thread_step,
}

abbrev no_answer : Answer
no_answer = record { bytes = []; failed = false }

module _ (start : Conn) (s : System) (i n cookie : ℕ) (r : Reading)
    (discarding : s.main ≡ discards n cookie) (short : length s.conn.incoming < n)
    (checking : s.threads i ≡ checks r) where
  abbrev failing : System
  failing = record s {
    conn = record s.conn { incoming = [] };
    main = checks_discard cookie;
    failed = true;
  }

  discard_step : step main_goes_on s ≡ some failing
  unfolding step main_step
  discard_step =
      let e : ltb (length s.conn.incoming) n ≡ true = ground (arith, short) in
      let d : discard n s.conn ≡ (err eof, record s.conn { incoming = [] }) =
        discard_lem n s.conn ∙ rw e refl in
      ap (λ m. main_step m s) discarding ∙ ap (λ x. some (after_discard s cookie x)) d

  abbrev cut : System
  cut = record failing {
    holder = unlock r s.holder;
    threads = set_thread i ended s.threads;
    cancelled = true;
  }

  check_step : step (thread_goes_on i no_answer) failing ≡ some cut
  unfolding step thread_step
  check_step = ap (λ t. thread_step i no_answer t failing) checking

  -- Where the loop discards a payload whose end the client does not send, and a READ has sent data
  -- and is about to test the error of that, wherever it is in its range: the READ can end there,
  -- and give up the lock, though the client takes all that is written to it. What the client has got
  -- stays, and with it a reply that has been begun. The state is one of a transmission.
  pub read_cut :
      r.in_transaction ≡ true
      → Reach IsFair start s
      → (s' : System) × Reach IsFair start s'
        × (s'.threads i ≡ ended)
        × (s'.holder ≡ none)
        × (s'.conn.outgoing ≡ s.conn.outgoing)
        × (s'.conn.room ≡ s.conn.room)
  read_cut inside reached = (
    cut,
    go (thread_goes_on i no_answer) (go main_goes_on reached tt discard_step)
        (subst (FairThread no_answer) (sym checking) tt) check_step,
    let e : (i == i) ≡ true = ground arith in rw e refl,
    rw inside refl,
    refl,
    refl,
  )
