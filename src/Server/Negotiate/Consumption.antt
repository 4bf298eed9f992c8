-- ===== src/Server/Negotiate/Consumption.antt =====
-- The negotiation ends: every round reads 16 bytes at least.
use pond.Prelude.{
  ℕ, zero, suc, ◌+◌, ◌*◌, ◌≤◌, ◌<◌, ◌≡◌, ◌≢◌, refl, Bool, Option, none, some, List, length,
  length-drop, arith,
}
use pond.Server.Conn.{Conn, Result, ok, err, panic, stuck, eof, receive, pure, continue}
use pond.Server.Discard.{write_bytes}
use pond.Server.Calm.{IsCalm, IsCalm-receive, IsCalm-then, continue_takes, calm_rules}
use pond.Server.Negotiate.{
  found, find_export, negotiate_backend, send_reply, reply, announce, or_unavailable, serve_option,
  terminated, receive_option, negotiate_round, negotiate,
}

IsCalm-send_reply : (type r : ℕ) (d : Result (List ℕ)) → d ≢ stuck → IsCalm (send_reply type r d)
IsCalm-send_reply type r (ok d) h = search calm_rules
IsCalm-send_reply type r (err e) h = search calm_rules
IsCalm-send_reply type r panic h = search calm_rules
IsCalm-send_reply type r stuck h = absurd (h refl)

IsCalm-reply : (type r : ℕ) (payload : List ℕ) → IsCalm (reply type r payload)
unfolding reply write_bytes
IsCalm-reply type r payload = IsCalm-send_reply type r _ (λ e. ground arith)

IsCalm-terminated : (r : Result (List ℕ)) → r ≢ stuck → IsCalm (terminated r)
IsCalm-terminated (ok head) h = search calm_rules
IsCalm-terminated (err eof) h = search calm_rules
IsCalm-terminated (err e) h = search calm_rules
IsCalm-terminated panic h = search calm_rules
IsCalm-terminated stuck h = absurd (h refl)

module _ {B : Type 0} where
  IsCalm-found : (o : Option B) → IsCalm (found o)
  IsCalm-found none = search calm_rules
  IsCalm-found (some b) = search calm_rules

  IsCalm-find :
      (e : Option (List ℕ → Option B)) (bytes : List ℕ) (n : ℕ) → IsCalm (find_export e bytes n)
  unfolding find_export
  IsCalm-find none bytes n = search calm_rules
  IsCalm-find (some f) bytes n = search (calm_rules, IsCalm-found)

  IsCalm-announce : (type : ℕ) (b : B) → IsCalm (announce type b)
  unfolding announce
  IsCalm-announce type b = search (calm_rules, IsCalm-reply)

  IsCalm-or_unavailable :
      (type : ℕ) (r : Result B) → r ≢ stuck → IsCalm (or_unavailable type r (announce type))
  IsCalm-or_unavailable type (ok b) h = IsCalm-announce type b
  IsCalm-or_unavailable type (err e) h = search (calm_rules, IsCalm-reply)
  IsCalm-or_unavailable type panic h = search calm_rules
  IsCalm-or_unavailable type stuck h = absurd (h refl)

module _ {B : Type 0} (export : Option (List ℕ → Option B)) (stale : List ℕ) where
  IsCalm-negotiate_backend : (size : ℕ) → IsCalm (negotiate_backend export stale size)
  unfolding negotiate_backend
  IsCalm-negotiate_backend size = search (calm_rules, IsCalm-find)

  -- The branch of NBD_OPT_GO and NBD_OPT_INFO.
  IsCalm-go :
      (type size : ℕ)
      → IsCalm (λ c.
        or_unavailable type
          (negotiate_backend export stale size c).0
          (announce type)
          (negotiate_backend export stale size c).1)
  IsCalm-go type size =
      IsCalm-then (negotiate_backend export stale size) (λ r. or_unavailable type r (announce type))
        (IsCalm-negotiate_backend size) (IsCalm-or_unavailable type)

  IsCalm-serve_option : (type size : ℕ) → IsCalm (serve_option export stale type size)
  unfolding serve_option
  IsCalm-serve_option type size = search (calm_rules, IsCalm-reply, IsCalm-go) depth 9

-- A header of an option takes 16 bytes.
receive_option_takes :
    (c : Conn) (head : List ℕ)
    → (receive_option c).0 ≡ ok head
    → length (receive_option c).1.incoming + 16 ≤ length c.incoming
unfolding receive_option receive
receive_option_takes c head h = ground (arith, length-drop 16 c.incoming)

IsCalm-receive_option : IsCalm receive_option
unfolding receive_option
IsCalm-receive_option = IsCalm-then (receive 16) terminated (IsCalm-receive 16) IsCalm-terminated

module _ {B : Type 0} (export : Option (List ℕ → Option B)) where
  IsCalm-negotiate_round :
      (stale : List ℕ) (cancelled : Bool) → IsCalm (negotiate_round export stale cancelled)
  unfolding negotiate_round
  IsCalm-negotiate_round stale cancelled =
      search (calm_rules, IsCalm-receive_option, IsCalm-reply, IsCalm-serve_option) depth 7

  -- A round after which the loop goes on has read a header.
  pub negotiate_round_takes :
      (stale : List ℕ) (cancelled : Bool) (c : Conn) (chosen : Option B)
      → (negotiate_round export stale cancelled c).0 ≡ ok chosen
      → length (negotiate_round export stale cancelled c).1.incoming + 16 ≤ length c.incoming
  unfolding negotiate_round
  negotiate_round_takes stale cancelled c chosen =
      continue_takes (receive_option c).0 _ (receive_option c).1 (length c.incoming) 16 chosen
        (λ head. search (calm_rules, IsCalm-reply, IsCalm-serve_option) depth 7)
        (receive_option_takes c)

  -- The negotiation ends, whatever the client sends: each round that is not the last reads 16
  -- bytes at least.
  pub negotiate-ne-stuck :
      (fuel : ℕ) (cancelled : ℕ → Bool) (stale : ℕ → List ℕ) (round : ℕ) (c : Conn)
      → length c.incoming < 16 * fuel
      → (negotiate fuel export cancelled stale round c).0 ≢ stuck
  unfolding negotiate
  negotiate-ne-stuck zero cancelled stale round c h = absurd (omega arith)
  negotiate-ne-stuck (suc fuel) cancelled stale round c h =
      go (negotiate_round export (stale round) (cancelled round) c).0
        (negotiate_round export (stale round) (cancelled round) c).1
        ((IsCalm-negotiate_round (stale round) (cancelled round)).ends c)
        (negotiate_round_takes (stale round) (cancelled round) c)
        (negotiate-ne-stuck fuel cancelled stale (round + 1))
    where
      go :
          (r : Result (Option B)) (c' : Conn)
          → r ≢ stuck
          → ((o : Option B) → r ≡ ok o → length c'.incoming + 16 ≤ length c.incoming)
          → ((u : Conn)
              → length u.incoming < 16 * fuel
              → (negotiate fuel export cancelled stale (round + 1) u).0 ≢ stuck)
          → (continue r
              (λ chosen. elim chosen [
                | none ↦ negotiate fuel export cancelled stale (round + 1)
                | some backend ↦ pure backend
              ])
              c').0
            ≢ stuck
      go (ok none) c' n t ih = ih c' (omega (arith, t none refl))
      go (ok (some b)) c' n t ih = λ e. cc
      go (err x) c' n t ih = λ e. cc
      go panic c' n t ih = λ e. cc
      go stuck c' n t ih = absurd (n refl)
