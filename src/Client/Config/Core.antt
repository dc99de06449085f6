-- ===== src/Client/Config/Core.antt =====
-- What the configuration code calls outside the repository: floats and durations, the parsers of
-- the core's types, and the `build` of three builders. Errors of these are their texts.
use prosody_rb.Base.{String, Result}
use prosody_rb.Util.Seconds.{Floats}

pub record Parsers : Type 1 where
  pub floats : Floats
  pub open floats use *
  pub SpanRelation : Type 0
  pub SocketAddr : Type 0
  pub PeerEndpoint : Type 0
  pub ByteSize : Type 0
  pub SubsystemName : Type 0
  pub parse_span : String → Result String SpanRelation
  pub parse_address : String → Result String SocketAddr
  pub parse_endpoint : String → Result String PeerEndpoint
  pub parse_size : String → Result String ByteSize
  pub try_subsystem : String → Result String SubsystemName
