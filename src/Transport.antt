-- ===== src/Transport.antt =====
-- The type `Transport` of option.go, a uint8: 1 is TCP and 2 is WebSocket.
use ramix.Prelude.{ℕ}

abbrev pub Transport : Type 0
Transport = ℕ

abbrev pub transport_tcp : Transport
transport_tcp = 1

abbrev pub transport_web_socket : Transport
transport_web_socket = 2
