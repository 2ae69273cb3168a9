-- ===== src/Apps/Window/Limits.antt =====
-- apps/ndn-consumer-window.cpp: the window and the number of outstanding Interests over an Interest and
-- its reply.
use ndn_sim.Prelude.{ℕ, ◌≡◌, refl, true, arith, ok, ◌+◌, ◌<◌, ◌^◌}
use ndn_sim.Prelude.Int.{ℤ}
use ndn_sim.Apps.Platform.{Platform}
use ndn_sim.Apps.Consumer.{
  Data, schedule_next_packet, seq_of_data, send_seq, on_data, receive_seq, or_zero,
  will_send_out_interest,
}
use ndn_sim.Apps.Window.{
  WindowConsumer, window_on_data, window_received, window_will_send, window_next_packet,
  window_virtuals,
}

module _ (pf : Platform) where
  open (pf.doubles) use {Double, lt, plus, decimal}

  active-send_seq :
      (s : ℕ) (now : ℤ) (c : WindowConsumer pf)
      → c.active ≡ true
      → (send_seq pf (window_virtuals pf) s now c).active ≡ true
  unfolding send_seq schedule_next_packet will_send_out_interest
  active-send_seq s now c a = a

  on_data-receive_seq :
      (now : ℤ) (s : ℕ) (packet : Data pf) (c : WindowConsumer pf)
      → c.active ≡ true
      → seq_of_data pf packet ≡ ok s
      → on_data pf now packet c ≡ ok (receive_seq pf s (or_zero packet.hop_count) now c)
  unfolding on_data
  on_data-receive_seq now s packet c a e = rw (a, e) refl

  module _ (s reply hops : ℕ) (now later : ℤ) (c : WindowConsumer pf) where
    abbrev answered : WindowConsumer pf
    answered =
        window_received pf later
          (receive_seq pf reply hops later (send_seq pf (window_virtuals pf) s now c))

    received_in_flight :
        c.subclass.in_flight + 1 < 2 ^ 32 → answered.subclass.in_flight ≡ c.subclass.in_flight
    unfolding window_received receive_seq send_seq schedule_next_packet will_send_out_interest
        window_virtuals window_next_packet window_will_send
    received_in_flight b = omega arith

    received_window : answered.subclass.window ≡ plus c.subclass.window (decimal 1 0)
    unfolding window_received receive_seq send_seq schedule_next_packet will_send_out_interest
        window_virtuals window_next_packet window_will_send
    received_window = refl

  -- An Interest and a reply leave the number of outstanding Interests as it was, and the window is
  -- one larger, where the application runs and the counter does not wrap.
  pub window_on_data-send_seq :
      (s reply : ℕ) (now later : ℤ) (packet : Data pf) (c : WindowConsumer pf)
      → c.active ≡ true
      → c.subclass.in_flight + 1 < 2 ^ 32
      → seq_of_data pf packet ≡ ok reply
      → (c' : WindowConsumer pf) × (window_on_data pf later packet
            (send_seq pf (window_virtuals pf) s now c)
          ≡ ok c')
        × (c'.subclass.in_flight ≡ c.subclass.in_flight)
        × (c'.subclass.window ≡ plus c.subclass.window (decimal 1 0))
  unfolding window_on_data
  window_on_data-send_seq s reply now later packet c a b e =
      let sent : WindowConsumer pf = send_seq pf (window_virtuals pf) s now c in
      (
        window_received pf later (receive_seq pf reply (or_zero packet.hop_count) later sent),
        rw (on_data-receive_seq later reply packet sent (active-send_seq s now c a) e) refl,
        received_in_flight s reply (or_zero packet.hop_count) now later c b,
        received_window s reply (or_zero packet.hop_count) now later c,
      )
