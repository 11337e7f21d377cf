-- ===== src/Ingestion/Single/Examples.antt =====
-- A file with one line, with a tokenizer that takes each character for a token.
use docintel.Common.{some, none, [], ◌∷◌, codes}
use docintel.Shared.Security.{default_acl}
use docintel.Ingestion.Metadata.{Document, Ingested}
use docintel.Ingestion.Single.{Calls}
use docintel.Ingestion.Single.Cited.{Cited}

abbrev line : Document
line = record { id = []; content = codes "one line"; meta = [] }

abbrev calls : Calls
calls = record {
  convert = λ paths. some (line ∷ []);
  classify = λ t. none;
  encode = λ t. t;
  decode = λ t. t;
  id_of = λ t m. t;
  embed_and_write = λ ds. some (ds, 1);
  uuid_of_hex = λ t. some t;
  chunk_id_from_index = λ t i. t;
}

abbrev notes : Ingested
notes = record {
  tenant_id = codes "acme";
  document_id = codes "d1";
  filename = codes "notes.txt";
  extra_meta = [];
  acl = default_acl;
}
