-- ===== src/Registry/Stored/Routes.antt =====
-- crates/wm-host/src/registry.rs: the fields of a route that was written are read back.
use wiremirage.Prelude.Text.{Str, codes, str_eq}
use wiremirage.Prelude.Assoc.{Assoc, lookup, insert, remove}
use wiremirage.Prelude.Decimal.{print, max_u32}
use wiremirage.Prelude.Decimal.RoundTrip.{parse_unsigned-print}
use wiremirage.Prelude.{false, Option, none, some, [], is_empty, ok, ◌≡◌, refl, sym, ap₂, ◌∙◌}
use wiremirage.Registry.Action.{registry_error}
use wiremirage.Registry.{Codec, Route, malformed}
use wiremirage.Registry.Records.{
  utf8, required, parsed, parse_ts, transposed, utf8_opt, only_utf8, unwrap_or, decode_route,
}
use wiremirage.Prelude.Utf8.{from_utf8}
use wiremirage.Registry.Laws.{IsCodec, IsOptionalText, IsNewRoute}
use wiremirage.Registry.Stored.{write_source, write_route_fields}
use wiremirage.Registry.Stored.Groups.{print-IsText}
use wiremirage.Store.Runs.{Runs, then-Runs, some-Runs, hash_set-Runs, hash_delete-Runs}

unfoldable pub source_fields : Option Str → Assoc Str → Assoc Str
source_fields none h = remove (codes "source") h
source_fields (some src) h = insert (codes "source") src h

write_source-Runs :
    (key : Str) (src : Option Str) → Runs key (source_fields src) (write_source key src)
unfolding write_source source_fields
write_source-Runs key none = hash_delete-Runs key (codes "source")
write_source-Runs key (some src) = hash_set-Runs key (codes "source") src

module _ (codec : Codec) (json : Str) where
  -- the fields that a write of the route adds, with the methods as the text given
  unfoldable pub stored_fields : Route → Assoc Str → Assoc Str
  stored_fields route h =
      let head = insert (codes "methods") json (
        insert (codes "number") (print route.number) (
          insert (codes "group_name") route.group_name
            (insert (codes "group_id") route.group_id (insert (codes "id") route.id h)))) in
      let code = insert (codes "compiled_wasm") route.compiled_wasm (
        insert (codes "bindings_version") route.bindings_version
          (insert (codes "language") route.language (insert (codes "path") route.path head))) in
      insert (codes "owner_id") route.owner_id (
        insert (codes "created_at") (codec.to_rfc3339 route.created_at)
          (source_fields route.source code))

  pub write_route_fields-Runs :
      (key : Str) (route : Route)
      → codec.to_vec route.methods ≡ some json
      → Runs key (stored_fields route) (write_route_fields codec key route)
  unfolding write_route_fields stored_fields
  write_route_fields-Runs key route encoded =
      let put = hash_set-Runs key in
      then-Runs key (put (codes "id") route.id) (
        then-Runs key (put (codes "group_id") route.group_id) (
          then-Runs key (put (codes "group_name") route.group_name) (
            then-Runs key (put (codes "number") (print route.number)) (
              some-Runs key (malformed (codes "methods")) (codec.to_vec route.methods) json _
                encoded
                (then-Runs key (put (codes "methods") json) (
                  then-Runs key (put (codes "path") route.path) (
                    then-Runs key (put (codes "language") route.language) (
                      then-Runs key (put (codes "bindings_version") route.bindings_version) (
                        then-Runs key (put (codes "compiled_wasm") route.compiled_wasm) (
                          then-Runs key (write_source-Runs key route.source) (
                            then-Runs key
                              (put (codes "created_at") (codec.to_rfc3339 route.created_at))
                              (put (codes "owner_id") route.owner_id))))))))))))

  pub stored_fields-not-empty :
      (route : Route) (h : Assoc Str) → is_empty (stored_fields route h) ≡ false
  unfolding stored_fields insert
  stored_fields-not-empty route h = refl

  decode_route-source :
      IsCodec codec
      → (route : Route) → IsNewRoute route
      → codec.from_slice json ≡ some route.methods
      → (src : Option Str) → IsOptionalText src
      → decode_route codec (stored_fields (record route { source = src }) [])
        ≡ ok (record route { source = src; hits_total = 0; last_hit_at = none })
  unfolding decode_route stored_fields source_fields utf8 required from_utf8 parsed parse_ts
      transposed utf8_opt only_utf8 unwrap_or lookup insert remove str_eq
  decode_route-source laws route new decoded none text =
      rw
        (
          new.id_text,
          new.group_id_text,
          new.group_name_text,
          print-IsText route.number,
          parse_unsigned-print max_u32 route.number new.number_fits,
          decoded,
          new.path_text,
          new.language_text,
          new.bindings_text,
          laws.time_text route.created_at,
          laws.time_parsed route.created_at new.created,
          new.owner_text,
        )
        refl
  decode_route-source laws route new decoded (some src) text =
      rw
        (
          new.id_text,
          new.group_id_text,
          new.group_name_text,
          print-IsText route.number,
          parse_unsigned-print max_u32 route.number new.number_fits,
          decoded,
          new.path_text,
          new.language_text,
          new.bindings_text,
          laws.time_text route.created_at,
          laws.time_parsed route.created_at new.created,
          new.owner_text,
          text,
        )
        refl

  pub decode_route-fields :
      IsCodec codec
      → (route : Route) → IsNewRoute route
      → codec.from_slice json ≡ some route.methods
      → decode_route codec (stored_fields route []) ≡ ok route
  decode_route-fields laws route new decoded =
      decode_route-source laws route new decoded route.source new.source_text
      ∙ ap₂ (λ n t. ok (record route { hits_total = n; last_hit_at = t })) (sym new.no_hits)
          (sym new.unused)
