-- ===== src/Compass/OptionTests.antt =====
-- The readers of the options at concrete texts.
use compass4nfv.Base.{
  ◌≡◌, refl, false, true, List, [], ◌∷◌, map, some, none, Text, codes, text_eq, number_eq,
}
use compass4nfv.Base.Dict.{Dict, lookup, update, has_key}
use compass4nfv.Result.{ok}
use compass4nfv.Value.{Value, str, num, value_eq}
use compass4nfv.Effects.Sample.{sample, sample-KeepsKeys}
use compass4nfv.Compass.Networking.{get_subnet}
use compass4nfv.Compass.Networking.Known.{get_subnet_correct}
use compass4nfv.Compass.Package.Address.{find_address}
use compass4nfv.Compass.Package.Credentials.{credentials_of}
use compass4nfv.Compass.Package.Given.{Credential, written, entry, credentials_of-written}

abbrev names : List Text
names = codes "host1" ∷ codes "host2" ∷ []

abbrev services : List Credential
services =
    record { service = codes "image"; username = codes "glance"; password = codes "a=b" }
    ∷ record { service = codes "compute"; username = codes "nova"; password = codes "nova" }
    ∷ []

credentials_of-written_example :
    credentials_of (map written services) [] ≡ ok (update [] (map entry services))
unfolding number_eq
credentials_of-written_example =
    credentials_of-written services [] ((refl, refl), ((refl, refl), tt))

found : find_address (codes "http://10.1.0.12/api") ≡ some (codes "10.1.0.12")
unfolding find_address
found = refl

abbrev subnets : Dict Value Value
subnets = (str (codes "10.1.0.0/24"), num 1) ∷ []

get_subnet_correct_example :
    ((id : Value)
      → get_subnet sample (codes "10.1.0.2") subnets ≡ some id
      → (cidr : Value) × (sample.in_network (codes "10.1.0.2") cidr ≡ true)
        × (lookup cidr subnets ≡ some id))
    × (sample.ip_address (codes "10.1.0.2") ≡ true
        → ((cidr : Value) → has_key cidr subnets ≡ true → sample.ip_network cidr ≡ true)
        → get_subnet sample (codes "10.1.0.2") subnets ≡ none
        → (cidr : Value) → has_key cidr subnets ≡ true
        → sample.in_network (codes "10.1.0.2") cidr ≡ false)
get_subnet_correct_example = get_subnet_correct sample sample-KeepsKeys (codes "10.1.0.2") subnets
