-- ===== src/Client/Config/Sample.antt =====
-- Parsers for the tests: every text is itself.
use prosody_rb.Base.{String, ok}
use prosody_rb.Util.Samples.{whole_seconds}
use prosody_rb.Client.Config.Core.{Parsers}

abbrev pub parsers : Parsers
parsers = record {
  floats = whole_seconds;
  SpanRelation = String;
  SocketAddr = String;
  PeerEndpoint = String;
  ByteSize = String;
  SubsystemName = String;
  parse_span = λ s. ok s;
  parse_address = λ s. ok s;
  parse_endpoint = λ s. ok s;
  parse_size = λ s. ok s;
  try_subsystem = λ s. ok s;
}
