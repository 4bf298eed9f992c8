-- ===== src/Server/Negotiate/Requests.antt =====
-- One round of a client that asks for an export.
use pond.Prelude.{
  ℕ, ◌+◌, ◌-◌, ◌^◌, ◌≤◌, ◌<◌, ◌≡◌, refl, ◌∙◌, false, Option, none, some, List, ◌++◌, length,
  length-append, drop, take, arith, append_assoc,
}
use pond.Prelude.Bytes.{be32, of_be, of_be-be32}
use pond.Server.Const.{nbd_opt_go, nbd_rep_err_unknown, buffer_size}
use pond.Server.Conn.{Conn, err, panic, not_available}
use pond.Server.Negotiate.{
  find_export, reply_header, announce, or_unavailable, serve_option, negotiate_round,
  unavailable_text,
}
use pond.Server.Negotiate.Fields.{
  option_header, round_serves, negotiate_backend-receive, find_export-name, reply-fits,
}

abbrev pub payload : ℕ → List ℕ → List ℕ → List ℕ
payload n name info = be32 n ++ (name ++ info)

abbrev pub request : ℕ → List ℕ → List ℕ → List ℕ
request n name info = option_header nbd_opt_go (length (payload n name info)) ++ payload n name info

module _ {B : Type 0} (f : List ℕ → Option B) (stale : List ℕ) (n : ℕ) (name info rest : List ℕ)
    (c : Conn) where
  -- NBD_OPT_GO with a payload that the server reads.
  pub serve_option-go :
      6 ≤ length (payload n name info)
      → length (payload n name info) ≤ buffer_size
      → n < 2 ^ 32
      → serve_option
          (some f)
          stale
          nbd_opt_go
          (length (payload n name info))
          (record c { incoming = payload n name info ++ rest })
        ≡ (let r =
              find_export
                (some f)
                (payload n name info ++ drop (length (payload n name info)) stale)
                n
                (record c { incoming = rest }) in
            or_unavailable nbd_opt_go r.0 (announce nbd_opt_go) r.1)
  unfolding serve_option
  serve_option-go lo hi h =
      ground
        (arith, negotiate_backend-receive f stale (payload n name info) rest c lo hi, name_length)
    where
      name_length : of_be (take 4 (payload n name info)) 0 ≡ n
      name_length = unfold be32 in of_be-be32 n h

pub length-payload :
    (n : ℕ) (name info : List ℕ) → length (payload n name info) ≡ 4 + length name + length info
unfolding be32
length-payload n name info = omega (arith, length-append name info)

module _ {B : Type 0} (f : List ℕ → Option B) (stale : List ℕ) (n : ℕ) (name info rest : List ℕ)
    (c : Conn) where
  -- The round of such a request.
  pub round_request :
      6 ≤ length (payload n name info)
      → length (payload n name info) ≤ buffer_size
      → n < 2 ^ 32
      → negotiate_round (some f) stale false (record c { incoming = request n name info ++ rest })
        ≡ (let r =
              find_export
                (some f)
                (payload n name info ++ drop (length (payload n name info)) stale)
                n
                (record c { incoming = rest }) in
            or_unavailable nbd_opt_go r.0 (announce nbd_opt_go) r.1)
  round_request lo hi h =
      rw
        (append_assoc (option_header nbd_opt_go (length (payload n name info)))
          (payload n name info) rest)
        (round_serves (some f) stale nbd_opt_go (length (payload n name info))
            (payload n name info ++ rest) c (omega arith) (omega arith)
          ∙ serve_option-go f stale n name info rest c lo hi h)

  pub round_chosen :
      (b : B)
      → n ≡ length name
      → 6 ≤ length (payload n name info)
      → length (payload n name info) ≤ buffer_size
      → f name ≡ some b
      → negotiate_round (some f) stale false (record c { incoming = request n name info ++ rest })
        ≡ announce nbd_opt_go b (record c { incoming = rest })
  round_chosen b e lo hi here = ground (
    arith,
    here,
    length-payload n name info,
    round_request lo hi,
    find_export-name f stale n name info (drop (length (payload n name info)) stale)
        (record c { incoming = rest }) e,
  )

  pub round_missing :
      n ≡ length name
      → 6 ≤ length (payload n name info)
      → length (payload n name info) ≤ buffer_size
      → 54 ≤ c.room
      → f name ≡ none
      → negotiate_round (some f) stale false (record c { incoming = request n name info ++ rest })
        ≡ (
          err not_available,
          record c {
            incoming = rest;
            outgoing =
                (c.outgoing ++ reply_header nbd_opt_go nbd_rep_err_unknown 34) ++ unavailable_text;
            room = c.room - 54;
          },
        )
  round_missing e lo hi room here =
      let sized = length-payload n name info in
      let more = drop (length (payload n name info)) stale in
      round_request lo hi (omega (arith, sized))
      ∙ rw
          (find_export-name f stale n name info more (record c { incoming = rest }) e
            (omega (arith, sized)))
          (rw here (
            rw
              (reply-fits nbd_opt_go nbd_rep_err_unknown unavailable_text
                (record c { incoming = rest }) (omega arith) room)
              refl))

  -- The slice for the name reaches behind the buffer.
  pub round_crash :
      6 ≤ length (payload n name info)
      → length (payload n name info) ≤ buffer_size
      → buffer_size < 4 + n
      → n < 2 ^ 32
      → (negotiate_round
          (some f)
          stale
          false
          (record c { incoming = request n name info ++ rest })).0
        ≡ panic
  round_crash lo hi long h = rw (round_request lo hi h) (unfold find_export in ground arith)
