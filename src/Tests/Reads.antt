-- ===== src/Tests/Reads.antt =====
-- Runs of the model of src/directed_read.rs.
use adbc_spanner.Common.{true, [], ◌∷◌, codes, ok, err, ◌≡◌, refl, invalid_arguments, contains}
use adbc_spanner.Reads.Directed.{Mode, ReplicaType, Selection, DirectedReadSpec, parse}
use adbc_spanner.Reads.Directed.Tokens.{is_graphic}
use adbc_spanner.Reads.Directed.RoundTrip.{IsSelection, spec_text, parse-spec_text}

abbrev east : Selection
east = record { location = codes "us-east1"; kind = ReplicaType.read_only }

abbrev anywhere : Selection
anywhere = record { location = []; kind = ReplicaType.read_write }

abbrev preferred : DirectedReadSpec
preferred = record {
  mode = Mode.include;
  selections = east ∷ anywhere ∷ [];
  auto_failover_disabled = true;
}

spaced_run :
    parse (codes "  include : us-east1 : read_only ,:read_write ; auto_failover_disabled")
    ≡ ok preferred
unfolding parse
spaced_run = refl

excluded_flag_run : parse (codes "exclude:us-east1;auto_failover_disabled") ≡ err invalid_arguments
unfolding parse
excluded_flag_run = refl

stray_comma_run : parse (codes "include:us-east1,") ≡ err invalid_arguments
unfolding parse
stray_comma_run = refl

east-IsSelection : IsSelection east
unfolding is_graphic contains
east-IsSelection = ((refl, refl, refl, refl), refl)

anywhere-IsSelection : IsSelection anywhere
unfolding is_graphic contains
anywhere-IsSelection = ((refl, refl, refl, refl), refl)

parse-spec_text_example : parse (spec_text preferred) ≡ ok preferred
parse-spec_text_example =
    parse-spec_text preferred (east-IsSelection, (anywhere-IsSelection, tt)) refl refl
