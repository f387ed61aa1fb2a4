-- ===== src/Server/Session/Quiet.antt =====
-- Which functions on the path of received bytes send no "OK", and leave the results as they are.
use lft.Base.{
  ℕ, ◌%◌, Bool, true, false, ◌&&◌, ◌||◌, List, [], ◌∷◌, ◌++◌, ◌≡◌, inl, inr, refl, ◌∙◌, arith,
  Bytes, equal, drop, take, length, Bool-cases, is_some,
}
use lft.Wire.Header.{FileTransferHeader}
use lft.Server.State.{
  ServerEnv, Server, Call, stream_send, ok_message, accept_message, u32_mod, stream_send_copy,
}
use lft.Server.Receive.{
  open_output_file, append_body, header_missing, auto_accept, header_arrived, append_file_bytes,
}
use lft.Server.Receive.Cases.{buffered, append_file_bytes-cases}
use lft.Server.Events.{append_all}

unfoldable pub is_ok_send : Call → Bool
unfolding equal
is_ok_send (stream_send stream message fin) = equal message ok_message && fin
is_ok_send _ = false

-- The message "OK" was handed to msquic.
unfoldable pub ok_sent : List Call → Bool
ok_sent [] = false
ok_sent (c ∷ cs) = is_ok_send c || ok_sent cs

pub ok_sent-snoc :
    (cs : List Call) (c : Call) → ok_sent (cs ++ c ∷ []) ≡ (ok_sent cs || is_ok_send c)
unfolding ok_sent
ok_sent-snoc [] c = ground arith
ok_sent-snoc (d ∷ cs) c = ground (arith, ok_sent-snoc cs c)

-- What a waiting `receive_file` may rely on: a result that says success, and a wake-up that says
-- success, come after an "OK".
pub record Justified (s : Server) : Type 0 where
  pub success : s.file_result.success ≡ true → ok_sent s.calls ≡ true
  pub woken : s.file_ok ≡ true → ok_sent s.calls ≡ true

-- The function kept the results, and no "OK" was lost or made up.
pub record Quiet (s t : Server) : Type 0 where
  pub success : t.file_result.success ≡ true → s.file_result.success ≡ true
  pub woken : t.file_ok ≡ true → s.file_ok ≡ true
  pub sent : ok_sent t.calls ≡ ok_sent s.calls

pub Quiet-refl : (s : Server) → Quiet s s
Quiet-refl s = record { success = λ h. h; woken = λ h. h; sent = refl }

pub Quiet-trans : {s t u : Server} → Quiet s t → Quiet t u → Quiet s u
Quiet-trans p q = record {
  success = λ h. p.success (q.success h);
  woken = λ h. p.woken (q.woken h);
  sent = q.sent ∙ p.sent;
}

pub append_body-Quiet : (env : ServerEnv) (s : Server) (d : Bytes) → Quiet s (append_body env s d)
unfolding append_body
append_body-Quiet env s d = ground arith

pub header_missing-Quiet : (s : Server) → Quiet s (header_missing s)
unfolding header_missing
header_missing-Quiet s = ground arith

pub accept-sent :
    (cs : List Call) (stream : ℕ)
    → ok_sent (cs ++ stream_send stream accept_message false ∷ []) ≡ ok_sent cs
unfolding is_ok_send
accept-sent cs stream = ground (arith, ok_sent-snoc cs (stream_send stream accept_message false))

pub auto_accept-Quiet : (env : ServerEnv) (s : Server) (n : ℕ) → Quiet s (auto_accept env s n)
unfolding auto_accept
auto_accept-Quiet env s n =
    let o = (open_output_file env s).0 in
    let a =
      (stream_send_copy env (record o { file_accepted = true }) o.file_stream accept_message
        false).0 in
    let body = drop n s.stream_receive_buffer in
    ground (
      arith,
      append_body-Quiet env a (take (length body % u32_mod) body),
      accept-sent s.calls s.file_stream,
    )

pub header_arrived-Quiet :
    (env : ServerEnv) (s : Server) (h : FileTransferHeader) (n : ℕ)
    → Quiet s (header_arrived env s h n)
unfolding header_arrived
header_arrived-Quiet env s h n = elim (Bool-cases (is_some s.file_offer)) [
  | inl o ↦ rw (o, header_arrived) (record { success = λ e. e; woken = λ e. e; sent = refl })
  | inr o ↦
      rw (o, header_arrived)
        (Quiet-trans (record { success = λ e. e; woken = λ e. e; sent = refl })
          (auto_accept-Quiet env _ n))
]

pub append_file_bytes-Quiet :
    (env : ServerEnv) (s : Server) (d : Bytes) → Quiet s (append_file_bytes env s d)
append_file_bytes-Quiet env s d =
    let buffered-Quiet : Quiet s (buffered s d) = record {
      success = λ e. e;
      woken = λ e. e;
      sent = refl;
    } in
    append_file_bytes-cases (Quiet s) env s d (λ p. append_body-Quiet env s d)
      (λ p e. Quiet-trans buffered-Quiet (header_missing-Quiet (buffered s d)))
      (λ h n p e. Quiet-trans buffered-Quiet (header_arrived-Quiet env (buffered s d) h n))

pub append_all-Quiet :
    (env : ServerEnv) (s : Server) (bs : List Bytes) → Quiet s (append_all env s bs)
unfolding append_all
append_all-Quiet env s [] = Quiet-refl s
append_all-Quiet env s (b ∷ bs) =
    Quiet-trans (append_file_bytes-Quiet env s b)
      (append_all-Quiet env (append_file_bytes env s b) bs)
