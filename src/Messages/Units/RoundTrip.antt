-- ===== src/Messages/Units/RoundTrip.antt =====
-- A message without a body is read back.
use pgwire.Base.{ℕ, [], arith}
use pgwire.Buffers.Rules.{Reads-pure, Writes-pure}
use pgwire.Messages.Codec.Framing.{RoundTrips}
use pgwire.Messages.Units.{unit_message}

pub unit-RoundTrips : {A : Type 0} (t : ℕ) (a : A) → RoundTrips (unit_message t a) a [] 0
unfolding unit_message
unit-RoundTrips t a = record {
  writes = Writes-pure;
  reads = Reads-pure a;
  announced = omega arith;
  fits = omega arith;
}
