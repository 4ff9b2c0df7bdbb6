-- ===== src/Directory/Messages.antt =====
-- The messages of the service directory (src/api/protobufs/*.proto): an optional field that the
-- code tests by has_* is an Option, any other is the value that its accessor returns.
use gravity.Prelude.{ℕ, String, Bool, List, Option}

-- enum RegistrationType { SERVICE, DATA }
pub data RegistrationType : Type 0 where
  data_product service : RegistrationType

-- enum ChangeType { REMOVE, ADD }
pub data ChangeType : Type 0 where
  removed added : ChangeType

-- PublisherInfoPB; the url and the registration time are always set
pub record Publisher : Type 0 where
  pub url : String
  pub is_relay : Option Bool
  pub component_id : Option String
  pub ip_address : Option String
  pub registration_time : ℕ

-- ServiceDirectoryRegistrationPB
pub record Registration : Type 0 where
  pub id : String
  pub url : String
  pub kind : RegistrationType
  pub component_id : Option String
  pub domain : Option String
  pub timestamp : Option ℕ
  pub is_relay : Option Bool
  pub ip_address : Option String

-- ServiceDirectoryUnregistrationPB
pub record Unregistration : Type 0 where
  pub id : String
  pub url : String
  pub kind : RegistrationType
  pub domain : Option String
  pub registration_time : ℕ

-- ComponentLookupRequestPB
pub record LookupRequest : Type 0 where
  pub lookup_id : String
  pub kind : RegistrationType
  pub domain_id : Option String

-- ComponentDataLookupResponsePB
pub record DataLookupResponse : Type 0 where
  pub lookup_id : String
  pub domain_id : String
  pub publishers : List Publisher

-- ComponentServiceLookupResponsePB; the registration time is set only with a url
pub record ServiceLookupResponse : Type 0 where
  pub lookup_id : String
  pub url : String
  pub domain_id : String
  pub registration_time : Option ℕ

-- ProductLocations
pub record ProductLocations : Type 0 where
  pub product_id : String
  pub urls : List String
  pub component_ids : List String
  pub domain_ids : List String
  pub timestamps : List ℕ

-- ProductChange
pub record ProductChange : Type 0 where
  pub product_id : String
  pub url : String
  pub registration_type : RegistrationType
  pub change_type : ChangeType
  pub component_id : String
  pub timestamp : ℕ

-- ServiceDirectoryMapPB
pub record ProviderMap : Type 0 where
  pub service_providers : List ProductLocations
  pub data_providers : List ProductLocations
  pub change : Option ProductChange
  pub domain : String

-- ServiceDirectoryDomainUpdatePB
pub record DomainUpdate : Type 0 where
  pub known_domains : List String
  pub update_domain : String
  pub kind : ChangeType

-- the codes of ServiceDirectoryResponsePB that the directory answers
pub data ReturnCode : Type 0 where
  success not_registered : ReturnCode

-- what a response carries
pub data Response : Type 0 where
  nothing : Response
  publisher_list : DataLookupResponse → Response
  service_location : ServiceLookupResponse → Response
  directory_response : String → ReturnCode → Response
  domain_name : String → Response
  provider_map : ProviderMap → Response

-- what the directory publishes through its own node, with the filter text where it gives one
pub data Publication : Type 0 where
  registered_publishers : DataLookupResponse → String → Publication
  domain_details : ProviderMap → Publication
  domain_update : DomainUpdate → Publication
