-- ===== src/Network/InFlight.antt =====
-- What may be on its way to the receiver: a part of the header and the file.
use lft.Base.{
  ℕ, ◌+◌, ◌-◌, Bool, true, false, List, [], ◌∷◌, ◌++◌, ◌≡◌, ◌⊎◌, inl, inr, some, refl, sym, ap, ◌∙◌,
  Bytes, length, take, drop, concat, take-sum, take-append, take-append_sum, drop-take, take-take,
}
use lft.Client.State.{Client}
use lft.Client.Replay.{replay}
use lft.Client.Send.{
  Job, Phase, sending_header, waiting_decision, sending_empty, sending_chunk, waiting_ack, returned,
}
use lft.Client.Send.Sent.{text, OnWire}
use lft.Network.{cut_into, outgoing}

module _ (job : Job) (content : Bytes) where
  -- The first bytes of the whole text are out.
  abbrev pub IsPartOut : Client → Type 0
  IsPartOut c = (k : ℕ) × (outgoing (replay c.calls) ≡ take k (text job content ++ content))

  body-IsPartOut :
      (sent : ℕ) (fin : Bool) (c : Client)
      → replay c.calls ≡ some (text job content ++ take sent content, fin)
      → IsPartOut c
  body-IsPartOut sent fin c e = (
    length (text job content) + sent,
    ap outgoing e ∙ sym (take-append_sum (text job content) sent content),
  )

  header-IsPartOut : (c : Client) → replay c.calls ≡ some (text job content, false) → IsPartOut c
  header-IsPartOut c e =
      (length (text job content), ap outgoing e ∙ sym (take-append (text job content) content))

  pub OnWire-IsPartOut :
      (p : Phase) (c : Client) → OnWire job content p c → (p ≡ returned false) ⊎ IsPartOut c
  unfolding OnWire
  OnWire-IsPartOut sending_header c v = inr (header-IsPartOut c v)
  OnWire-IsPartOut waiting_decision c v = inr (header-IsPartOut c v)
  OnWire-IsPartOut sending_empty c v = inr (body-IsPartOut 0 _ c v.0.on_stream)
  OnWire-IsPartOut (sending_chunk sent) c v = inr (body-IsPartOut sent _ c v.on_stream)
  OnWire-IsPartOut waiting_ack c v = inr (body-IsPartOut job.file_size true c v.on_stream)
  OnWire-IsPartOut (returned true) c v =
      inr (body-IsPartOut job.file_size true c (v refl).0.on_stream)
  OnWire-IsPartOut (returned false) c v = inl refl

-- The buffers together are the first bytes.
concat-cut_into : (ks : List ℕ) (s : Bytes) → (m : ℕ) × (concat (cut_into ks s) ≡ take m s)
concat-cut_into [] s = (0, refl)
concat-cut_into (k ∷ ks) s =
    let (m, e) = concat-cut_into ks (drop k s) in
    (k + m, ap (take k s ++◌) e ∙ sym (take-sum k m s))

-- The bytes that have been read and those that arrive are the first bytes of the whole.
pub next_bytes :
    (whole out : Bytes) (k r : ℕ) (ks : List ℕ)
    → out ≡ take k whole
    → let got = concat (cut_into ks (drop r out)) in
      take r whole ++ got ≡ take (r + length got) whole
next_bytes whole out k r ks e =
    let got = concat (cut_into ks (drop r out)) in
    let (m, cut) = concat-cut_into ks (drop r out) in
    let ahead : got ≡ take m (take (k - r) (drop r whole)) =
      cut ∙ ap (take m) (ap (drop r) e ∙ drop-take r k whole) in
    let same : got ≡ take (length got) (drop r whole) =
      ahead
      ∙ (take-take m (k - r) (drop r whole)
          ∙ ap (λ d. take (length d) (drop r whole)) (sym ahead)) in
    ap (take r whole ++◌) same ∙ sym (take-sum r (length got) whole)
