-- ===== src/Client/Send/Sent.antt =====
-- What a sender has put on its stream, at each place where it waits, and how that is kept by the
-- callbacks and the parts that fail or send.
use lft.Base.{
  ℕ, ◌≤◌, Bool, true, false, ◌++◌, some, ◌≡◌, refl, subst, ◌∙◌, arith, Bytes, length, take, drop,
  ==_iff, leb_refl, leb, ◌==◌, Bool-cases, inl, inr, if_both, not,
}
use lft.Wire.Header.{encode_file_header}
use lft.Client.State.{ClientEnv, Client}
use lft.Client.Events.{says_accept}
use lft.Client.Replay.{replay}
use lft.Client.Send.{
  Job, Phase, sending_header, waiting_decision, sending_empty, sending_chunk, waiting_ack, returned,
  System, begin_send, fail, abort_and_fail, send_or_abort, after_chunks,
}
use lft.Client.Send.Callbacks.{Grows, IsHonest, says_ok}

-- The file behind `path` holds `content` while it is sent.
abbrev pub Reads : ClientEnv → Bytes → Bytes → Type 0
Reads env path content =
    (offset want : ℕ) → env.read path offset want ≡ take want (drop offset content)

module _ (job : Job) (content : Bytes) where
  abbrev pub text : Bytes
  text = encode_file_header job.header

  -- The header, all bytes of the file, and the end of the stream, after an "ACCEPT".
  pub record HasSentAll (c : Client) : Type 0 where
    pub on_stream :
        replay c.calls ≡ some (encode_file_header job.header ++ take job.file_size content, true)
    pub whole : job.file_size ≤ length content
    pub after_accept : says_accept c ≡ true

  pub record HasSentUpTo (sent : ℕ) (c : Client) : Type 0 where
    pub on_stream :
        replay c.calls
        ≡ some (encode_file_header job.header ++ take sent content, leb job.file_size sent)
    pub within : sent ≤ job.file_size
    pub read_within : sent ≤ length content
    pub after_accept : says_accept c ≡ true

  unfoldable pub OnWire : Phase → Client → Type 0
  OnWire sending_header c = replay c.calls ≡ some (text, false)
  OnWire waiting_decision c = replay c.calls ≡ some (text, false)
  OnWire sending_empty c = HasSentUpTo 0 c × (job.file_size ≡ 0)
  OnWire (sending_chunk sent) c = HasSentUpTo sent c
  OnWire waiting_ack c = HasSentAll c
  OnWire (returned result) c = result ≡ true → HasSentAll c × (says_ok c ≡ true)

  pub record IsSending (y : System) : Type 0 where
    pub on_wire : OnWire y.phase y.client
    pub honest : IsHonest y.client

  pub returned-OnWire :
      (p : Phase) (c : Client) → p ≡ returned true → OnWire p c → HasSentAll c × (says_ok c ≡ true)
  unfolding OnWire
  returned-OnWire p c e v = subst (λ q. OnWire q c) e v refl

  pub IsSending-returned :
      (y : System)
      → y.phase ≡ returned true
      → IsSending y
      → HasSentAll y.client × (says_ok y.client ≡ true)
  IsSending-returned y e v = returned-OnWire y.phase y.client e v.on_wire

  pub OnWire-Grows : (p : Phase) (c d : Client) → Grows c d → OnWire p c → OnWire p d
  unfolding OnWire
  OnWire-Grows sending_header c d g v = g.same_replay ∙ v
  OnWire-Grows waiting_decision c d g v = g.same_replay ∙ v
  OnWire-Grows sending_empty c d g v = (
    record {
      on_stream = g.same_replay ∙ v.0.on_stream;
      within = v.0.within;
      read_within = v.0.read_within;
      after_accept = g.accepts v.0.after_accept;
    },
    v.1,
  )
  OnWire-Grows (sending_chunk sent) c d g v = record {
    on_stream = g.same_replay ∙ v.on_stream;
    within = v.within;
    read_within = v.read_within;
    after_accept = g.accepts v.after_accept;
  }
  OnWire-Grows waiting_ack c d g v = record {
    on_stream = g.same_replay ∙ v.on_stream;
    whole = v.whole;
    after_accept = g.accepts v.after_accept;
  }
  OnWire-Grows (returned result) c d g v = λ h.
      let (all, ok) = v h in
      (
        record {
          on_stream = g.same_replay ∙ all.on_stream;
          whole = all.whole;
          after_accept = g.accepts all.after_accept;
        },
        g.acknowledges ok,
      )

  pub Grows-IsSending :
      (p : Phase) (c d : Client)
      → Grows c d
      → IsSending (record { client = c; phase = p })
      → IsSending (record { client = d; phase = p })
  Grows-IsSending p c d g v = record {
    on_wire = OnWire-Grows p c d g v.on_wire;
    honest = g.honest v.honest;
  }

  pub fail-IsSending : (c : Client) → IsHonest c → IsSending (fail c)
  unfolding fail OnWire
  fail-IsSending c h = record { on_wire = λ e. absurd (ground arith); honest = h }

  pub abort_and_fail-IsSending : (c : Client) → IsHonest c → IsSending (abort_and_fail c)
  unfolding OnWire abort_and_fail
  abort_and_fail-IsSending c h = record {
    on_wire = λ e. absurd (ground arith);
    honest = ground (arith, h);
  }

  pub send_or_abort-IsSending :
      (env : ClientEnv) (c : Client) (d : Bytes) (fin : Bool) (next : Phase)
      → IsHonest c
      → OnWire next (begin_send env c d fin).0
      → IsSending (send_or_abort env c d fin next)
  unfolding send_or_abort begin_send
  send_or_abort-IsSending env c d fin next h v =
      let begun : IsHonest (begin_send env c d fin).0 = record {
        accepted = h.accepted;
        acknowledged = h.acknowledged;
      } in
      if_both IsSending (not (env.send_ok c.calls)) (abort_and_fail-IsSending _ begun)
        (record { on_wire = v; honest = begun })

  pub HasSentUpTo-HasSentAll :
      (sent : ℕ) (c : Client) → HasSentUpTo sent c → sent ≡ job.file_size → HasSentAll c
  HasSentUpTo-HasSentAll sent c v e = record {
    on_stream = v.on_stream ∙ rw (e, leb_refl job.file_size) refl;
    whole = omega (arith, e, v.read_within);
    after_accept = v.after_accept;
  }

  pub after_chunks-IsSending :
      (sent : ℕ) (c : Client)
      → IsHonest c
      → HasSentUpTo sent c
      → IsSending (after_chunks job sent c)
  unfolding after_chunks OnWire
  after_chunks-IsSending sent c h v = elim (Bool-cases (sent == job.file_size)) [
    | inl e ↦ rw e (record {
      on_wire = HasSentUpTo-HasSentAll sent c v ((==_iff sent job.file_size).0 e);
      honest = h;
    })
    | inr e ↦ rw e (abort_and_fail-IsSending c h)
  ]
