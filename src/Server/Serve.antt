-- ===== src/Server/Serve.antt =====
-- src/server.rs, the receive loop: datagrams that do not decode change nothing.
use Prim.Native.String.{String}
use rusty_dhcp.Base.{
  ℕ, ◌≡◌, refl, sym, ap, ◌∙◌, inl, inr, Bool, true, false, List, [], ◌∷◌, if◌then◌else◌, Outcome,
  ok, err, panic, ◌>>=◌, Outcome-cases, if_true, if_false,
}
use rusty_dhcp.Packet.{CustomErr, Packet, from}
use rusty_dhcp.Server.{Server, SocketAddr, Received, on_datagram, receive_all}

abbrev pub is_err : Outcome CustomErr Packet → Bool
is_err (ok p) = false
is_err (err e) = true
is_err panic = false

-- What is received, without the datagrams that do not decode.
unfoldable pub decodable : {E : Type 0} → List (Received E) → List (Received E)
decodable [] = []
decodable (Received.no_datagram e ∷ events) = Received.no_datagram e ∷ decodable events
decodable (Received.datagram bytes src ∷ events) =
    if is_err (from bytes) then decodable events else Received.datagram bytes src ∷ decodable events

skipped :
    {H : Type 0} (handle_request : H → Server → Packet → Outcome String H) (s : Server) (h : H)
    (bytes : List ℕ) (src : SocketAddr) (why : CustomErr)
    → from bytes ≡ err why
    → on_datagram handle_request s h bytes src ≡ ok (s, h)
unfolding on_datagram
skipped handle_request s h bytes src why e = rw (e, on_datagram)

module _ {H E : Type 0} (handle_request : H → Server → Packet → Outcome String H) where
  -- The loop ends with the same handler state and the same error, or panics alike, if the
  -- datagrams that do not decode are left out.
  pub receive_all-decodable :
      (s : Server) (h : H) (events : List (Received E))
      → receive_all handle_request s h events ≡ receive_all handle_request s h (decodable events)
  unfolding receive_all decodable
  receive_all-decodable s h [] = refl
  receive_all-decodable s h (Received.no_datagram e ∷ events) = refl
  receive_all-decodable s h (Received.datagram bytes src ∷ events) =
      elim (Outcome-cases (from bytes)) [
        | inl (p, e) ↦ keep (λ s' h'. receive_all-decodable s' h' events) (ap is_err e)
        | inr (inl (why, e)) ↦
            ap (λ t. t >>= λ x. receive_all handle_request x.0 x.1 events)
              (skipped handle_request s h bytes src why e)
            ∙ receive_all-decodable s h events
            ∙ ap (receive_all handle_request s h) (sym (if_true _ _ _ (ap is_err e)))
        | inr (inr e) ↦ keep (λ s' h'. receive_all-decodable s' h' events) (ap is_err e)
      ]
    where
      keep :
          ((s' : Server) (h' : H)
            → receive_all handle_request s' h' events
              ≡ receive_all handle_request s' h' (decodable events))
          → is_err (from bytes) ≡ false
          → receive_all handle_request s h (Received.datagram bytes src ∷ events)
            ≡ receive_all handle_request s h (decodable (Received.datagram bytes src ∷ events))
      keep ih e =
          (λ i. on_datagram handle_request s h bytes src >>= λ x. ih x.0 x.1 i)
          ∙ ap (receive_all handle_request s h) (sym (if_false _ _ _ e))
