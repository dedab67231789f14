-- ===== src/Tests/Data.antt =====
-- Values that the tests share.
use answer_service.Base.Text.{Text, text}
use answer_service.Indexing.Values.{ExternalId, SourceReference}
use answer_service.Indexing.Fingerprint.{QaContent, Digest}
use answer_service.Indexing.Pair.{QaPair, DesiredPair}

-- A digest that keeps its input: the tests compare fingerprints by their payloads.
abbrev pub plain_digest : Digest
plain_digest s = s

abbrev pub id_a : ExternalId
id_a = record { value = text "a" }

abbrev pub id_b : ExternalId
id_b = record { value = text "b" }

abbrev pub content_of_letter : Text → QaContent
content_of_letter t = record {
  question = record { content = t };
  answer = record { content = text "yes" };
  category = record { value = text "x" };
}

abbrev pub desired_b : DesiredPair
desired_b = record {
  external_id = id_b;
  content = content_of_letter (text "b");
  source_updated_at = 2;
}

abbrev pub pair_a : QaPair
pair_a = record {
  id = id_a;
  created_at = 1;
  updated_at = 1;
  content = content_of_letter (text "a");
  source_updated_at = 1;
}

abbrev pub a_source : SourceReference
a_source = record { value = text "f.csv" }
