-- ===== src/Publication/Identity.antt =====
-- identity.go: the identities of facts. The hash of the JSON text of a tuple is a parameter.
use tokeninsights.Prelude.{String, List, [], ◌∷◌, Option, none, some, ◌≡◌, refl}
use tokeninsights.Publication.{Fact, FactMessage, Location}

module _ (tuple_id : List String → String) where
  unfoldable pub session_id : String → String → String
  session_id harness native_id = tuple_id ("session-v1" ∷ "default" ∷ harness ∷ native_id ∷ [])

  unfoldable pub message_id : String → String → String → String
  message_id harness session message =
      tuple_id ("message-v1" ∷ "default" ∷ harness ∷ session ∷ message ∷ [])

  abbrev pub native_id_of : Option FactMessage → String
  native_id_of none = ""
  native_id_of (some m) = m.native_id

  unfoldable pub fact_id : Fact → String
  fact_id f = tuple_id (
      "fact-v1"
      ∷ "default"
      ∷ f.harness
      ∷ f.session.native_id
      ∷ native_id_of f.message
      ∷ f.native_request_id
      ∷ f.usage_scope
      ∷ [])

  unfoldable pub location_id : Location → String
  location_id l = tuple_id ("location-v1" ∷ l.directory_key ∷ l.repository_key ∷ [])

  unfoldable pub set_message : Fact → Option FactMessage → Option FactMessage
  set_message f none = none
  set_message f (some m) =
      some (record m { id = message_id f.harness f.session.native_id m.native_id })

  unfoldable pub set_location : Option Location → Option Location
  set_location none = none
  set_location (some l) = some (record l { id = location_id l })

  unfoldable pub set_ids : Fact → Fact
  set_ids f =
      let f' = record f {
        session = record f.session { id = session_id f.harness f.session.native_id };
        message = set_message f f.message;
        location = set_location f.location;
      } in
      record f' { id = fact_id f' }

  set_message_idem :
      (f g : Fact) (m : Option FactMessage)
      → f.harness ≡ g.harness
      → f.session.native_id ≡ g.session.native_id
      → set_message g (set_message f m) ≡ set_message f m
  unfolding set_message
  set_message_idem f g none h s = refl
  set_message_idem f g (some m) h s = rw (h, s) refl

  native_id_of-set_message :
      (f : Fact) (m : Option FactMessage) → native_id_of (set_message f m) ≡ native_id_of m
  unfolding set_message
  native_id_of-set_message f none = refl
  native_id_of-set_message f (some m) = refl

  set_location_idem : (l : Option Location) → set_location (set_location l) ≡ set_location l
  unfolding set_location location_id
  set_location_idem none = refl
  set_location_idem (some l) = refl

  -- The identities depend on nothing that they set: to set them again changes nothing.
  pub set_ids_idem : (f : Fact) → set_ids (set_ids f) ≡ set_ids f
  unfolding set_ids fact_id
  set_ids_idem f =
      cc (set_location_idem f.location, set_message_idem f (set_ids f) f.message refl refl)
