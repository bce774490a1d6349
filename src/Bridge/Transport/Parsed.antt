-- ===== src/Bridge/Transport/Parsed.antt =====
-- What `parse_endpoint` gives.
use zygisk_frida_packet_tcp.Base.{
  ℕ, ◌≤◌, String, ◌≡◌, refl, ◌⊎◌, inl, inr, true, false, Option, none, some, arith, leb, str_eq, ℤ,
  pos, negsuc, Bool-cases, if◌then◌else◌,
}
use zygisk_frida_packet_tcp.Protocol.Errors.{Result, ok, Raises, e_bad_args}
use zygisk_frida_packet_tcp.Bridge.Transport.{
  Endpoint, max_port, is_unix, tcp_port, tcp_endpoint, unix_endpoint, endpoint_of, parse_endpoint,
}

-- An endpoint that can be connected to: a path, or a host that is not empty and a port in range,
-- written as the text that was given.
abbrev pub IsEndpoint : String → Endpoint → Type 0
IsEndpoint spec ep =
    ((is_unix ep ≡ true) × (path : String) × (ep.path ≡ some path))
    ⊎ ((is_unix ep ≡ false)
        × (ep.raw ≡ spec)
        × (host : String) × (port : ℕ) × (ep.host ≡ some host)
        × (str_eq host "" ≡ false)
        × (ep.port ≡ some port)
        × (port ≤ max_port))

abbrev pub Parses : String → Result Endpoint → Type 0
Parses spec r = Raises r e_bad_args ⊎ ((ep : Endpoint) × (r ≡ ok ep) × IsEndpoint spec ep)

or_local : (host : String) → str_eq (if str_eq host "" then "127.0.0.1" else host) "" ≡ false
or_local host = elim (Bool-cases (str_eq host "")) [ inl e ↦ rw e refl | inr e ↦ rw e e ]

module _ (int_of_text : String → Option ℤ) where
  port-Parses :
      (spec host port_raw : String) (o : Option ℤ)
      → Parses spec (tcp_port int_of_text spec host port_raw o)
  unfolding tcp_port
  port-Parses spec host port_raw none = inl refl
  port-Parses spec host port_raw (some (negsuc n)) = inl refl
  port-Parses spec host port_raw (some (pos n)) = elim (Bool-cases (leb n max_port)) [
    | inl e ↦
        rw e (inr (_, refl, inr (refl, refl, _, n, refl, or_local host, refl, ground (arith, e))))
    | inr e ↦ rw e (inl refl)
  ]

  tcp-Parses :
      (spec : String) (o : Option (String × String)) → Parses spec (tcp_endpoint int_of_text spec o)
  unfolding tcp_endpoint
  tcp-Parses spec none = inl refl
  tcp-Parses spec (some (host, port_raw)) = port-Parses spec host port_raw _

  unix-Parses :
      (spec : String) (o : Option String) → Parses spec (ok (unix_endpoint int_of_text spec o))
  unfolding unix_endpoint
  unix-Parses spec none = inr (_, refl, inl (refl, spec, refl))
  unix-Parses spec (some path) = inr (_, refl, inl (refl, path, refl))

  of-Parses : (spec : String) (o : Option String) → Parses spec (endpoint_of int_of_text spec o)
  unfolding endpoint_of
  of-Parses spec none = unix-Parses spec _
  of-Parses spec (some rest) = tcp-Parses spec _

  -- Whatever text is parsed: it is refused as E_BAD_ARGS, or it gives a path, or it gives a host that
  -- is not empty and a port from 0 to 65535 and keeps the text as it was given.
  pub parse_endpoint-Parses : (spec : String) → Parses spec (parse_endpoint int_of_text spec)
  unfolding parse_endpoint
  parse_endpoint-Parses spec = elim (Bool-cases (str_eq spec "")) [
    | inl e ↦ rw e (inl refl)
    | inr e ↦ rw e (of-Parses spec _)
  ]
